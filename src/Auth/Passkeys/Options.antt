-- ===== src/Auth/Passkeys/Options.antt =====
-- frontend/src/auth/passkeys.ts: the options of a prompt, read from the server's JSON, and whether
-- the browser has passkeys. A TypeError and what atob throws are none.
use mathlib.Core.Option
use my_cars.Prelude.{Bool, true, false, ◌&&◌, List, [], ◌∷◌, Option, none, some, Text, codes}
use my_cars.Prelude.Int.{pos, negsuc}
use my_cars.Prelude.Digits.{show}
use my_cars.Json.{
  Value, undefined, null, bool, num, str, arr, Number, integer, fraction, Items, nil, item, read,
}
use my_cars.Auth.Passkeys.{Base64, base64url_to_buffer}

-- What `passkeysSupported` looks for.
pub record Browser : Type 0 where
  pub has_window : Bool
  pub has_public_key_credential : Bool
  pub has_create : Bool
  pub has_get : Bool

unfoldable pub passkeys_supported : Browser → Bool
passkeys_supported w = w.has_window && (w.has_public_key_credential && (w.has_create && w.has_get))

abbrev number_text : Number → Text
number_text (integer (pos n)) = show n
number_text (integer (negsuc n)) = b'-' ∷ show (Prim.Native.Nat.suc n)
number_text (fraction s) = s

-- A descriptor: the members it has, over which the type 'public-key' and the bytes of its id are
-- written.
pub record Descriptor : Type 0 where
  pub members : Value
  pub id : Text

-- The members that the server sent, over which binary ones are written.
pub record CreationOptions : Type 0 where
  pub public_key : Value
  pub challenge : Text
  pub user : Value
  pub user_id : Text
  pub exclude_credentials : List Descriptor

-- The allowed credentials are written only if the server sent some.
pub record RequestOptions : Type 0 where
  pub public_key : Value
  pub challenge : Text
  pub allow_credentials : Option (List Descriptor)

-- `value.id`
abbrev pub id_of : Value → Option Value
id_of undefined = none
id_of null = none
id_of v = some (read v "id")

-- `object_text` is String of an array or an object.
module _ (b : Base64) (object_text : Value → Text) where
  -- `String(value)`
  abbrev pub string_of : Value → Text
  string_of (str s) = s
  string_of undefined = codes "undefined"
  string_of null = codes "null"
  string_of (bool true) = codes "true"
  string_of (bool false) = codes "false"
  string_of (num n) = number_text n
  string_of v = object_text v

  -- `base64urlToBuffer(String(value))`
  abbrev pub buffer_of : Value → Option Text
  buffer_of v = base64url_to_buffer b (string_of v)

  abbrev pub descriptor_of : Value → Option Descriptor
  descriptor_of v =
      Option.bind (id_of v)
        λ id. Option.map (λ bytes. record { members = v; id = bytes }) (buffer_of id)

  -- `value.map(…)`
  unfoldable pub descriptors_of : Items → Option (List Descriptor)
  unfolding base64url_to_buffer Option.bind
  descriptors_of nil = some []
  descriptors_of (item v vs) =
      Option.bind (descriptor_of v) λ d. Option.map (λ ds. d ∷ ds) (descriptors_of vs)

  unfoldable pub descriptors : Value → Option (List Descriptor)
  unfolding descriptors_of
  descriptors (arr vs) = descriptors_of vs
  descriptors _ = some []

  unfoldable pub creation_options_from_json : Value → Option CreationOptions
  unfolding base64url_to_buffer descriptors Option.bind
  creation_options_from_json options =
      let public_key = read options "publicKey" in
      let user = read public_key "user" in
      Option.bind (buffer_of (read public_key "challenge")) λ challenge.
        Option.bind (Option.bind (id_of user) buffer_of) λ user_id.
          Option.map
            (λ exclude. record {
              public_key = public_key;
              challenge = challenge;
              user = user;
              user_id = user_id;
              exclude_credentials = exclude;
            })
            (descriptors (read public_key "excludeCredentials"))

  -- Nothing where the member is undefined.
  abbrev pub allowed : Value → Option (Option (List Descriptor))
  allowed undefined = some none
  allowed v = Option.map (λ ds. some ds) (descriptors v)

  unfoldable pub request_options_from_json : Value → Option RequestOptions
  unfolding base64url_to_buffer descriptors Option.bind
  request_options_from_json options =
      let public_key = read options "publicKey" in
      Option.bind (buffer_of (read public_key "challenge")) λ challenge.
        Option.map
          (λ allow. record {
            public_key = public_key;
            challenge = challenge;
            allow_credentials = allow;
          })
          (allowed (read public_key "allowCredentials"))
