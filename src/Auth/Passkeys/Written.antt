-- ===== src/Auth/Passkeys/Written.antt =====
-- Options whose binary members the server wrote as base64url.
use mathlib.Core.Option
use my_cars.Prelude.{arith, ◌≡◌, refl, ap, List, [], ◌∷◌, Option, none, some, Text}
use my_cars.Json.{Value, undefined, null, bool, num, str, arr, obj, Items, nil, item, read}
use my_cars.Auth.Passkeys.{Base64, buffer_to_base64url}
use my_cars.Auth.Passkeys.Laws.{IsBase64, base64url_to_buffer-buffer_to_base64url}
use my_cars.Auth.Passkeys.Options.{
  Descriptor, id_of, buffer_of, descriptors_of, descriptors, creation_options_from_json,
  request_options_from_json,
}

-- A value that is the base64url of some bytes.
pub record IsWritten (b : Base64) (v : Value) (bytes : Text) : Type 0 where
  pub text : v ≡ str (buffer_to_base64url b bytes)
  pub base : IsBase64 b bytes

-- Descriptors whose ids are written.
abbrev pub AreWritten : Base64 → Items → List Descriptor → Type 0
AreWritten b nil [] = Unit
AreWritten b (item v vs) (d ∷ ds) =
    (d.members ≡ v) × IsWritten b (read v "id") d.id × AreWritten b vs ds
AreWritten b _ _ = ⊥

id_of-read : (v : Value) (s : Text) → read v "id" ≡ str s → id_of v ≡ some (str s)
id_of-read undefined s h = cc
id_of-read null s h = cc
id_of-read (bool x) s h = ap some h
id_of-read (num n) s h = ap some h
id_of-read (str t) s h = ap some h
id_of-read (arr vs) s h = ap some h
id_of-read (obj ms) s h = ap some h

module _ (b : Base64) (object_text : Value → Text) where
  buffer_of-written :
      (v : Value) (bytes : Text) → IsWritten b v bytes → buffer_of b object_text v ≡ some bytes
  buffer_of-written v bytes h = rw h.text (base64url_to_buffer-buffer_to_base64url b bytes h.base)

  read_id :
      (v : Value) (bytes : Text)
      → IsWritten b (read v "id") bytes
      → Option.bind (id_of v) (buffer_of b object_text) ≡ some bytes
  unfolding Option.bind
  read_id v bytes h =
      rw (id_of-read v (buffer_to_base64url b bytes) h.text)
        (base64url_to_buffer-buffer_to_base64url b bytes h.base)

  descriptors_of-item :
      (v : Value) (vs : Items) (d : Descriptor) (ds : List Descriptor)
      → Option.bind (id_of v) (buffer_of b object_text) ≡ some d.id
      → descriptors_of b object_text vs ≡ some ds
      → d.members ≡ v
      → descriptors_of b object_text (item v vs) ≡ some (d ∷ ds)
  unfolding descriptors_of Option.bind
  descriptors_of-item v vs d ds h k e = ground (arith, h, k, e)

  descriptors_of-written :
      (vs : Items) (ds : List Descriptor)
      → AreWritten b vs ds
      → descriptors_of b object_text vs ≡ some ds
  unfolding descriptors_of Option.bind
  descriptors_of-written nil [] h = refl
  descriptors_of-written nil (d ∷ ds) h = absurd h
  descriptors_of-written (item v vs) [] h = absurd h
  descriptors_of-written (item v vs) (d ∷ ds) (e, w, h) =
      descriptors_of-item v vs d ds (read_id v d.id w) (descriptors_of-written vs ds h) e

  -- Where btoa and atob do what is documented: options for a new passkey, whose challenge, user id
  -- and excluded credentials' ids the server wrote as base64url of some bytes, are converted, with
  -- exactly these bytes in their places and the server's other members as they are.
  pub creation_options_from_json_lem :
      (options : Value) (challenge user_id : Text) (vs : Items) (ds : List Descriptor)
      → IsWritten b (read (read options "publicKey") "challenge") challenge
      → IsWritten b (read (read (read options "publicKey") "user") "id") user_id
      → read (read options "publicKey") "excludeCredentials" ≡ arr vs
      → AreWritten b vs ds
      → creation_options_from_json b object_text options
        ≡ some (record {
          public_key = read options "publicKey";
          challenge = challenge;
          user = read (read options "publicKey") "user";
          user_id = user_id;
          exclude_credentials = ds;
        })
  unfolding creation_options_from_json descriptors Option.bind
  creation_options_from_json_lem options challenge user_id vs ds c u e w =
      rw
        (
          buffer_of-written (read (read options "publicKey") "challenge") challenge c,
          read_id (read (read options "publicKey") "user") user_id u,
          e,
          descriptors_of-written vs ds w,
        )
        refl

  -- The members over which the conversion of options for a sign-in writes: the challenge, and the
  -- allowed credentials where the server sent some.
  Allows : Value → Option (List Descriptor) → Type 0
  Allows v none = v ≡ undefined
  Allows v (some ds) = (vs : Items) × (v ≡ arr vs) × AreWritten b vs ds

  request_options_from_json_lem :
      (options : Value) (challenge : Text) (allow : Option (List Descriptor))
      → IsWritten b (read (read options "publicKey") "challenge") challenge
      → Allows (read (read options "publicKey") "allowCredentials") allow
      → request_options_from_json b object_text options
        ≡ some (record {
          public_key = read options "publicKey";
          challenge = challenge;
          allow_credentials = allow;
        })
  unfolding request_options_from_json descriptors Option.bind Allows
  request_options_from_json_lem options challenge none c h =
      rw (buffer_of-written (read (read options "publicKey") "challenge") challenge c, h) refl
  request_options_from_json_lem options challenge (some ds) c (vs, e, w) =
      rw
        (
          buffer_of-written (read (read options "publicKey") "challenge") challenge c,
          e,
          descriptors_of-written vs ds w,
        )
        refl
