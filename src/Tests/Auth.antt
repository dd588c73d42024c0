-- ===== src/Tests/Auth.antt =====
-- A browser whose URL parser knows one text, a signed-out visitor, and a byte in base64.
use my_cars.Prelude.{
  ℕ, suc, ◌≡◌, refl, ◌↔◌, ◌⊎◌, ◌++◌, true, [], ◌∷◌, none, some, Text, codes, text_eq, if◌then◌else◌,
}
use my_cars.Json.{Value, null, str, obj, arr, item, nil, end, member, read}
use my_cars.Client.Http.{Response, Platform, ok, decoded}
use my_cars.Client.Guards.Session.{is_session}
use my_cars.Auth.Session.{resolve_session}
use my_cars.Auth.Session.Laws.{resolve_session_iff}
use my_cars.Auth.Passkeys.{Base64, buffer_to_base64url}
use my_cars.Auth.Passkeys.Laws.{IsBase64}
use my_cars.Auth.Passkeys.Options.{creation_options_from_json}
use my_cars.Auth.Passkeys.Written.{IsWritten, creation_options_from_json_lem}
use my_cars.Auth.ReturnTo.{Url, UrlPlatform, default_return_to, local_part, valid_return_to}
use my_cars.Auth.ReturnTo.Laws.{
  IsOwn, IsPlainPath, valid_return_to-IsOwn, valid_return_to_double_slash,
}

abbrev signed_out : Response
signed_out = record { status = 401; status_text = []; body = none }

abbrev server : Platform ℕ
server = record {
  fetch = λ request w. (some signed_out, suc w);
  encode_uri_component = λ t. t;
  url_search_params = λ es. [];
}

resolve_session_iff_example :
    (((resolve_session server 0).0 ≡ ok none) ↔ (◌≡◌ {A = ℕ} 401 401))
    × (((resolve_session server 0).0 ≡ ok (some null)) ↔ (decoded signed_out is_session ≡ ok null))
resolve_session_iff_example = resolve_session_iff server 0 signed_out null refl

abbrev dotted : Text
dotted = codes "/.//evil.example"

abbrev dotted_url : Url
dotted_url = record {
  origin = codes "https://cars.example";
  username = [];
  password = [];
  pathname = codes "//evil.example";
  search = [];
  hash = [];
}

-- The parser removes the segment of one dot.
abbrev browser : UrlPlatform
browser = record {
  window_origin = codes "https://cars.example";
  parse_url = λ value base. if text_eq value dotted then some dotted_url else none;
  decodes = λ value. true;
  url_search_params = λ es. [];
}

dotted-IsPlainPath : IsPlainPath browser dotted
dotted-IsPlainPath = record { rooted = refl; one_slash = refl; no_backslash = refl; decodes = refl }

dotted_url-IsOwn : IsOwn browser dotted_url
dotted_url-IsOwn = record { same_origin = refl; no_username = refl; no_password = refl }

valid_return_to-IsOwn_example :
    (valid_return_to browser (some dotted) ≡ default_return_to)
    ⊎ ((u : Url) × (some dotted_url ≡ some u)
        × IsOwn browser u
        × IsPlainPath browser dotted
        × (valid_return_to browser (some dotted) ≡ local_part u))
valid_return_to-IsOwn_example = valid_return_to-IsOwn browser dotted

valid_return_to_double_slash_example :
    (valid_return_to browser (some dotted) ≡ codes "//" ++ (codes "evil.example" ++ []))
    × (valid_return_to browser (some (valid_return_to browser (some dotted))) ≡ default_return_to)
valid_return_to_double_slash_example =
    valid_return_to_double_slash browser dotted (codes "evil.example") dotted_url dotted-IsPlainPath
      refl dotted_url-IsOwn refl

-- Base64 of one byte.
abbrev one_byte : Base64
one_byte = record {
  atob = λ t. if text_eq t (codes "+w==") then some (251 ∷ []) else none;
  btoa = λ t. codes "+w==";
}

one_byte-IsBase64 : IsBase64 one_byte (251 ∷ [])
one_byte-IsBase64 = record { body = codes "+w"; padded = refl; letters = refl; read_back = refl }

byte-IsWritten : (v : Value) → v ≡ str (codes "-w") → IsWritten one_byte v (251 ∷ [])
unfolding buffer_to_base64url
byte-IsWritten v e = record { text = e; base = one_byte-IsBase64 }

abbrev with_id : Value
with_id = obj (member (codes "id") (str (codes "-w")) end)

abbrev options : Value
options = obj (
    member (codes "publicKey")
      (obj (
        member (codes "challenge") (str (codes "-w")) (
          member (codes "user") with_id
            (member (codes "excludeCredentials") (arr (item with_id nil)) end))))
      end)

creation_options_from_json_lem_example :
    creation_options_from_json one_byte (λ v. []) options
    ≡ some (record {
      public_key = read options "publicKey";
      challenge = 251 ∷ [];
      user = with_id;
      user_id = 251 ∷ [];
      exclude_credentials = record { members = with_id; id = 251 ∷ [] } ∷ [];
    })
creation_options_from_json_lem_example =
    creation_options_from_json_lem one_byte (λ v. []) options (251 ∷ []) (251 ∷ [])
      (item with_id nil) (record { members = with_id; id = 251 ∷ [] } ∷ [])
      (byte-IsWritten (str (codes "-w")) refl) (byte-IsWritten (str (codes "-w")) refl) refl
      (refl, byte-IsWritten (str (codes "-w")) refl, tt)
