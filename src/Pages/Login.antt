-- ===== src/Pages/Login.antt =====
-- frontend/src/routes/auth.login.tsx: signing in by a mailed link and by passkey. The browser's
-- prompt is a parameter.
pub mod Email
pub mod Laws
pub mod Messages
use my_cars.Prelude.{
  ◌==◌, Bool, true, false, not, ◌&&◌, Option, none, some, Text, codes, text_eq, if◌then◌else◌,
}
use my_cars.Json.{Value, str, obj, end, member, read}
use my_cars.Client.Http.{Platform, Result, ok, err, ApiError, status_of}
use my_cars.Client.Account.{start_passkey_login, complete_passkey_login, request_magic_link}
use my_cars.Auth.Passkeys.{
  Base64, Request, Prompted, credential, passkey_cancelled, failed, PublicKeyCredential, Assertion,
  CredentialJson, get_passkey_credential,
}
use my_cars.Auth.ReturnTo.{UrlPlatform, valid_return_to}
use my_cars.Pages.Cache.{QueryClient}
use my_cars.Pages.Keys.{session_query_key}
use my_cars.Pages.Entries.{App, Page, other_page}
use my_cars.Pages.Login.Email.{valid_email}

pub record LoginSearch : Type 0 where
  pub return_to : Option Text
  pub is_redirected : Bool

abbrev text_only : Value → Option Text
text_only (str s) = some s
text_only v = none

abbrev is_text : Text → Value → Bool
is_text s (str t) = text_eq t s
is_text s v = false

-- `validateSearch(search)`; the error is 'rate_limited' or undefined.
unfoldable pub validate_search : Value → LoginSearch
validate_search search = record {
  return_to = text_only (read search "returnTo");
  is_redirected = is_text (codes "rate_limited") (read search "error");
}

-- The error of a mutation: an ApiError, a cancelled prompt, or another.
pub data LoginError : Type 0 where
  api : ApiError → LoginError
  cancelled : LoginError
  other : LoginError

abbrev pub has_status : Option LoginError → Bool
has_status (some (api e)) = status_of e == 429
has_status _ = false

-- `isRateLimited(error)`; none stands for null.
unfoldable pub is_rate_limited : Option LoginError → Bool
is_rate_limited error = has_status error

unfoldable pub passkey_rejected : Option LoginError → Bool
passkey_rejected (some (api e)) = status_of e == 401
passkey_rejected _ = false

abbrev is_error : Option LoginError → Bool
is_error none = false
is_error (some e) = true

abbrev is_cancelled : Option LoginError → Bool
is_cancelled (some cancelled) = true
is_cancelled _ = false

unfoldable pub passkey_unavailable : Option LoginError → Bool
unfolding is_rate_limited passkey_rejected
passkey_unavailable error =
    is_error error
    && (not (passkey_rejected error) && (not (is_rate_limited error) && not (is_cancelled error)))

-- The same for the mailed link.
unfoldable pub backend_validation : Option LoginError → Bool
backend_validation (some (api e)) = status_of e == 400
backend_validation _ = false

unfoldable pub unexpected_error : Option LoginError → Bool
unfolding is_rate_limited backend_validation
unexpected_error error =
    is_error error && (not (backend_validation error) && not (is_rate_limited error))

-- `email`, `invalid` and the error of the mutation `magicLink`.
pub record LoginForm : Type 0 where
  pub email : Text
  pub invalid : Bool
  pub error : Option LoginError
  pub sent : Bool

abbrev asked : Result (Unit {0}) → LoginForm → LoginForm
asked (ok u) f = record f { invalid = false; error = none; sent = true }
asked (err e) f = record f { invalid = false; error = some (api e); sent = false }

-- `{ email, returnTo }`
abbrev link_input : Text → Text → Value
link_input email return_to =
    obj (member (codes "email") (str email) (member (codes "returnTo") (str return_to) end))

module _ {W : Type 0} (p : Platform W) where
  -- `submit(event)`, and the mutation to its end.
  unfoldable pub submit : Text → LoginForm → W → LoginForm × W
  unfolding valid_email
  submit return_to f w = elim (valid_email f.email) [
    | false ↦ (record f { invalid = true }, w)
    | true ↦ let (r, w') = request_magic_link p (link_input f.email return_to) w in (asked r f, w')
  ]

  -- The prompt for the options, and what JSON.stringify makes of a credential.
  module _ (b : Base64) (ask : Value → W → Request (PublicKeyCredential Assertion) × W)
      (encode : CredentialJson Assertion → Value) where
    abbrev ended : Result (Unit {0}) × W → Option LoginError × W
    ended (ok u, w) = (none, w)
    ended (err e, w) = (some (api e), w)

    abbrev complete : Prompted (CredentialJson Assertion) → W → Option LoginError × W
    complete passkey_cancelled w = (some cancelled, w)
    complete (failed e) w = (some other, w)
    complete (credential c) w = ended (complete_passkey_login p (encode c) w)

    abbrev prompted : Result Value × W → Option LoginError × W
    unfolding get_passkey_credential
    prompted (err e, w) = (some (api e), w)
    prompted (ok options, w) =
        let (request, w') = ask options w in complete (get_passkey_credential b request) w'

    -- `passkey.mutationFn`: none where it resolves, and the error that it throws.
    unfoldable pub sign_in : W → Option LoginError × W
    unfolding prompted
    sign_in w = prompted (start_passkey_login p w)

-- `passkey.onSuccess`: the session is resolved afresh.
unfoldable pub signed_in : {C W : Type 0} → QueryClient C W → Text → App C → App C
signed_in q return_to app = record {
  cache = q.remove_queries session_query_key app.cache;
  page = other_page return_to;
}
