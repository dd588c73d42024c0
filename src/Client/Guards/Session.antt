-- ===== src/Client/Guards/Session.antt =====
-- The guards of sessions, sign-in methods and passkeys in frontend/src/api/client.ts.
use my_cars.Prelude.{
  ℕ, suc, ◌==◌, Bool, true, false, not, ◌&&◌, List, [], ◌∷◌, all, any, length, ltb, text_eq, codes,
  if◌then◌else◌,
}
use my_cars.Prelude.Int.{eq_ℤ}
use my_cars.Json.{
  Value, undefined, null, bool, num, str, Number, integer, fraction, read, is_string, is_boolean,
  is_array, elements, one_of, equals_text,
}
use my_cars.Client.Enums.{authentication_methods}
use my_cars.Client.Guards.{is_record, is_nullable_string, items_of, is_profile}

unfoldable pub is_session : Value → Bool
unfolding is_profile
is_session v = is_record v && is_profile (read v "profile")

abbrev same_bool : Bool → Bool → Bool
same_bool true b = b
same_bool false b = not b

abbrev same_number : Number → Number → Bool
same_number (integer a) (integer b) = eq_ℤ a b
same_number (fraction s) (fraction t) = text_eq s t
same_number _ _ = false

-- The equality of a Set, between two values at different places of one parsed body: objects and
-- arrays are different ones.
abbrev pub same_value : Value → Value → Bool
same_value undefined undefined = true
same_value null null = true
same_value (bool a) (bool b) = same_bool a b
same_value (num a) (num b) = same_number a b
same_value (str s) (str t) = text_eq s t
same_value _ _ = false

-- `new Set(values).size`: an element counts where it differs from all behind it.
abbrev pub set_size : List Value → ℕ
set_size [] = 0
set_size (v ∷ vs) = let rest = set_size vs in if any (same_value v) vs then rest else suc rest

unfoldable pub is_authentication_methods : Value → Bool
is_authentication_methods v =
    is_record v
    && (is_array (read v "methods")
        && (ltb 0 (length (elements (read v "methods")))
            && (any (equals_text (codes "magic_link")) (elements (read v "methods"))
                && (set_size (elements (read v "methods")) == length (elements (read v "methods"))
                    && all (one_of authentication_methods) (elements (read v "methods"))))))

unfoldable pub is_passkey_summary : Value → Bool
is_passkey_summary v =
    is_record v
    && (all is_string (read v "id" ∷ read v "name" ∷ read v "createdAt" ∷ [])
        && (is_nullable_string (read v "lastUsedAt")
            && (is_nullable_string (read v "authenticatorName") && is_boolean (read v "backedUp"))))

unfoldable pub is_passkey_list : Value → Bool
unfolding is_passkey_summary
is_passkey_list v = items_of is_passkey_summary v

unfoldable pub is_web_authn_options : Value → Bool
is_web_authn_options v =
    is_record v
    && (is_record (read v "publicKey") && is_string (read (read v "publicKey") "challenge"))
