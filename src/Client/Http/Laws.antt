-- ===== src/Client/Http/Laws.antt =====
-- The branches of decoding in frontend/src/api/client.ts.
use my_cars.Prelude.{◌≡◌, ◌≢◌, ◌↔◌, ◌⊎◌, Bool, true, false, some, arith}
use my_cars.Json.{Value}
use my_cars.Client.Http.{
  Response, ApiError, unauthorized, status_of, ok, err, is_ok, json_body, error_from, decoded,
  deleted, invalid_response,
}

-- The error that is read from a response has the response's status, and is no
-- UnauthorizedError.
pub error_from-status :
    (r : Response) → (status_of (error_from r) ≡ r.status) × (error_from r ≢ unauthorized)
unfolding error_from
error_from-status r = ground arith

-- A response is decoded to a value exactly when its status is a success, its body parses to that
-- value, and the value passes the guard.
pub decoded-eq-ok_iff :
    (r : Response) (guard : Value → Bool) (v : Value)
    → (decoded r guard ≡ ok v) ↔ ((is_ok r ≡ true) × (r.body ≡ some v) × (guard v ≡ true))
unfolding decoded json_body
decoded-eq-ok_iff r guard v = ground arith

-- A response decodes to UnauthorizedError exactly when its status is 401.
pub decoded-unauthorized_iff :
    (r : Response) (guard : Value → Bool) → (decoded r guard ≡ err unauthorized) ↔ (r.status ≡ 401)
unfolding decoded json_body
decoded-unauthorized_iff r guard = ground (arith, error_from-status r)

-- An error of decoding has the response's own status, unless the status is a success: then it is
-- the 502 for an invalid response.
pub decoded-error :
    (r : Response) (guard : Value → Bool) (e : ApiError)
    → decoded r guard ≡ err e
    → ((status_of e ≡ r.status) × (is_ok r ≡ false)) ⊎ ((e ≡ invalid_response) × (is_ok r ≡ true))
unfolding decoded json_body
decoded-error r guard e h = ground (arith, error_from-status r)

-- A deletion succeeds exactly when the response's status is 204, and raises UnauthorizedError
-- exactly when it is 401.
pub deleted_iff :
    (r : Response)
    → ((deleted r ≡ ok tt) ↔ (r.status ≡ 204)) × ((deleted r ≡ err unauthorized) ↔ (r.status ≡ 401))
unfolding deleted
deleted_iff r = ground (arith, error_from-status r)
