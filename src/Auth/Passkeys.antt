-- ===== src/Auth/Passkeys.antt =====
-- frontend/src/auth/passkeys.ts: buffers as base64url, and the browser's passkey prompt. `atob`,
-- `btoa` and the prompt itself are the browser's, and parameters. A buffer is its list of bytes.
pub mod Laws
pub mod Options
pub mod Written
use mathlib.Core.Option
use my_cars.Prelude.{
  ℕ, ◌+◌, ◌*◌, ◌/◌, ◌==◌, Bool, true, false, ◌&&◌, ◌||◌, List, [], ◌∷◌, Option, none, some, Text,
  codes, text_eq, map, length, pad_end, if◌then◌else◌,
}
use my_cars.Json.{Value}

-- `atob` is none where it throws.
pub record Base64 : Type 0 where
  pub atob : Text → Option Text
  pub btoa : Text → Text

-- `.replace(/-/g, '+').replace(/_/g, '/')`
abbrev pub from_url : ℕ → ℕ
from_url c = if c == b'-' then b'+' else if c == b'_' then b'/' else c

-- `.replace(/\+/g, '-').replace(/\//g, '_')`
abbrev pub to_url : ℕ → ℕ
to_url c = if c == b'+' then b'-' else if c == b'/' then b'_' else c

abbrev is_empty : Text → Bool
is_empty [] = true
is_empty (c ∷ s) = false

-- `.replace(/=+$/, '')`
abbrev pub strip_padding : Text → Text
strip_padding [] = []
strip_padding (c ∷ s) =
    let rest = strip_padding s in if c == b'=' && is_empty rest then [] else c ∷ rest

-- `Math.ceil(length / 4) * 4`
abbrev pub padded_length : ℕ → ℕ
padded_length n = (n + 3) / 4 * 4

-- Which exception a request threw.
pub data Thrown : Type 0 where
  dom_exception : Text → Thrown
  other_error : Thrown

-- How a request for a credential ended. The credential may be null.
pub data Request {ℓ} (A : Type ℓ) : Type ℓ where
  answered : Option A → Request A
  threw : Thrown → Request A

pub data Prompted {ℓ} (A : Type ℓ) : Type ℓ where
  credential : A → Prompted A
  passkey_cancelled : Prompted A
  failed : Thrown → Prompted A

unfoldable pub is_cancellation : Thrown → Bool
is_cancellation (dom_exception name) =
    text_eq name (codes "NotAllowedError") || text_eq name (codes "AbortError")
is_cancellation other_error = false

unfoldable pub prompt {ℓ} : {A : Type ℓ} → Request A → Prompted A
unfolding is_cancellation
prompt (threw e) = if is_cancellation e then passkey_cancelled else failed e
prompt (answered none) = passkey_cancelled
prompt (answered (some c)) = credential c

-- The answers of an authenticator, their binary members as bytes.
pub record Attestation : Type 0 where
  pub client_data_json : Text
  pub attestation_object : Text
  pub transports : Option (List Text)

pub record Assertion : Type 0 where
  pub client_data_json : Text
  pub authenticator_data : Text
  pub signature : Text
  pub user_handle : Option Text

pub record PublicKeyCredential (R : Type 0) : Type 0 where
  pub id : Text
  pub raw_id : Text
  pub extension_results : Option Value
  pub authenticator_attachment : Option Text
  pub response : R

-- What is sent: the same with binary members as base64url. `type` is always 'public-key', and
-- missing extension results are an empty object.
pub record CredentialJson (R : Type 0) : Type 0 where
  pub id : Text
  pub raw_id : Text
  pub client_extension_results : Value
  pub authenticator_attachment : Option Text
  pub response : R

pub record AttestationJson : Type 0 where
  pub client_data_json : Text
  pub attestation_object : Text
  pub transports : List Text

abbrev or_none : Option (List Text) → List Text
or_none none = []
or_none (some ts) = ts

abbrev or_empty : Option Value → Value
or_empty none = Value.obj my_cars.Json.Members.end
or_empty (some v) = v

module _ (b : Base64) where
  unfoldable pub base64url_to_buffer : Text → Option Text
  base64url_to_buffer value =
      let base64 = map from_url value in
      b.atob (pad_end (padded_length (length base64)) b'=' base64)

  unfoldable pub buffer_to_base64url : Text → Text
  buffer_to_base64url buffer = strip_padding (map to_url (b.btoa buffer))

  -- `{...credentialBase(credential), response}`
  unfoldable pub credential_base : {R S : Type 0} → PublicKeyCredential R → S → CredentialJson S
  unfolding buffer_to_base64url
  credential_base c response = record {
    id = c.id;
    raw_id = buffer_to_base64url c.raw_id;
    client_extension_results = or_empty c.extension_results;
    authenticator_attachment = c.authenticator_attachment;
    response = response;
  }

  unfoldable pub registration_to_json :
      PublicKeyCredential Attestation → CredentialJson AttestationJson
  unfolding buffer_to_base64url credential_base
  registration_to_json c = credential_base c (record {
    client_data_json = buffer_to_base64url c.response.client_data_json;
    attestation_object = buffer_to_base64url c.response.attestation_object;
    transports = or_none c.response.transports;
  })

  unfoldable pub assertion_to_json : PublicKeyCredential Assertion → CredentialJson Assertion
  unfolding buffer_to_base64url credential_base
  assertion_to_json c = credential_base c (record {
    client_data_json = buffer_to_base64url c.response.client_data_json;
    authenticator_data = buffer_to_base64url c.response.authenticator_data;
    signature = buffer_to_base64url c.response.signature;
    user_handle = Option.map buffer_to_base64url c.response.user_handle;
  })

  -- Creating a passkey and signing in with one, from how the browser answers.
  abbrev convert : {A C : Type 0} → (A → C) → Prompted A → Prompted C
  convert f (credential c) = credential (f c)
  convert f passkey_cancelled = passkey_cancelled
  convert f (failed e) = failed e

  unfoldable pub create_passkey_credential :
      Request (PublicKeyCredential Attestation) → Prompted (CredentialJson AttestationJson)
  unfolding prompt registration_to_json
  create_passkey_credential request = convert registration_to_json (prompt request)

  unfoldable pub get_passkey_credential :
      Request (PublicKeyCredential Assertion) → Prompted (CredentialJson Assertion)
  unfolding prompt assertion_to_json
  get_passkey_credential request = convert assertion_to_json (prompt request)
