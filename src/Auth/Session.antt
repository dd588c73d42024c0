-- ===== src/Auth/Session.antt =====
-- frontend/src/auth/session.ts: the session, or null where nobody is signed in.
pub mod Laws
use my_cars.Prelude.{Option, none, some}
use my_cars.Json.{Value}
use my_cars.Client.Http.{Platform, Exec, Result, ok, err, unauthorized}
use my_cars.Client.Account.{get_session}

-- The handler of the `catch`.
abbrev rescue : {W : Type 0} → Result Value × W → Result (Option Value) × W
rescue (ok v, w) = (ok (some v), w)
rescue (err unauthorized, w) = (ok none, w)
rescue (err e, w) = (err e, w)

unfoldable pub resolve_session : {W : Type 0} → Platform W → Exec W (Option Value)
resolve_session p w = rescue (get_session p w)
