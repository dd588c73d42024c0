-- ===== src/Auth/Session/Laws.antt =====
-- The results of resolveSession in frontend/src/auth/session.ts.
use my_cars.Prelude.{◌≡◌, ◌↔◌, none, some, Text, codes, arith}
use my_cars.Json.{Value}
use my_cars.Client.Http.{
  Platform, Response, Result, ok, err, unauthorized, request_of, default_init, decoded,
}
use my_cars.Client.Http.Laws.{decoded-unauthorized_iff}
use my_cars.Client.Calls.Laws.{fetch_decoded_lem}
use my_cars.Client.Guards.Session.{is_session}
use my_cars.Client.Account.{get_session}
use my_cars.Auth.Session.{rescue, resolve_session}

abbrev session_path : Text
session_path = codes "/api/v1/session"

module _ {W : Type 0} (w : W) where
  rescue-none_iff : (r : Result Value) → ((rescue (r, w)).0 ≡ ok none) ↔ (r ≡ err unauthorized)
  rescue-none_iff (ok v) = ground arith
  rescue-none_iff (err unauthorized) = ground arith
  rescue-none_iff (err e) = ground arith

  rescue-some_iff : (r : Result Value) (v : Value) → ((rescue (r, w)).0 ≡ ok (some v)) ↔ (r ≡ ok v)
  rescue-some_iff (ok v) u = ground arith
  rescue-some_iff (err unauthorized) u = ground arith
  rescue-some_iff (err e) u = ground arith

-- Where the server answers the request for the session, the session resolves to null exactly if
-- the answer's status is 401, and to a value exactly if that value is a session that the answer
-- carries with a successful status.
pub resolve_session_iff :
    {W : Type 0} (p : Platform W) (w : W) (r : Response) (v : Value)
    → (p.fetch (request_of session_path default_init) w).0 ≡ some r
    → (((resolve_session p w).0 ≡ ok none) ↔ (r.status ≡ 401))
      × (((resolve_session p w).0 ≡ ok (some v)) ↔ (decoded r is_session ≡ ok v))
unfolding resolve_session get_session
resolve_session_iff p w r v h =
    let w' = (p.fetch (request_of session_path default_init) w).1 in
    let absent = rescue-none_iff w' (decoded r is_session) in
    let refused = decoded-unauthorized_iff r is_session in
    rw (fetch_decoded_lem p w session_path default_init is_session) (
      rw h (
        (λ e. refused.0 (absent.0 e), λ e. absent.1 (refused.1 e)),
        rescue-some_iff w' (decoded r is_session) v,
      ))
