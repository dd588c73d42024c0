-- ===== src/Auth/Passkeys/Laws.antt =====
-- The base64url of frontend/src/auth/passkeys.ts.
use my_cars.Prelude.{
  ℕ, zero, suc, ◌-◌, ◌==◌, ◌≡◌, refl, sym, ap, ◌∙◌, Bool, true, false, ◌&&◌, ◌||◌, [], ◌∷◌, ◌++◌,
  some, Text, map, length, all, replicate, leb, is_digit, pad_end, arith, and_iff,
}
use my_cars.Auth.Passkeys.{
  Base64, from_url, to_url, strip_padding, padded_length, base64url_to_buffer, buffer_to_base64url,
}

-- `[A-Za-z0-9+/]`
abbrev is_letter : ℕ → Bool
is_letter c =
    leb b'A' c && leb c b'Z'
    || (leb b'a' c && leb c b'z' || (is_digit c || (c == b'+' || c == b'/')))

-- What is documented of btoa and atob at a text of bytes: the output of btoa is letters of the
-- alphabet, then padding to a multiple of four, and atob reads it back.
pub record IsBase64 (b : Base64) (s : Text) : Type 0 where
  pub body : Text
  pub padded : b.btoa s ≡ pad_end (padded_length (length body)) b'=' body
  pub letters : all is_letter body ≡ true
  pub read_back : b.atob (b.btoa s) ≡ some s

map-pads :
    (s : Text) (k : ℕ) → map to_url (s ++ replicate k b'=') ≡ map to_url s ++ replicate k b'='
map-pads [] zero = refl
map-pads [] (suc k) = ap (λ t. b'=' ∷ t) (map-pads [] k)
map-pads (c ∷ s) k = ap (λ t. to_url c ∷ t) (map-pads s k)

strip_padding-pads : (k : ℕ) → strip_padding (replicate k b'=') ≡ []
strip_padding-pads zero = refl
strip_padding-pads (suc k) = rw (strip_padding-pads k) refl

not_pad : (c : ℕ) → is_letter c ≡ true → (to_url c == b'=') ≡ false
not_pad c h = ground arith

from_url-to_url : (c : ℕ) → is_letter c ≡ true → from_url (to_url c) ≡ c
from_url-to_url c h = ground arith

strip_padding-body :
    (s : Text) (k : ℕ)
    → all is_letter s ≡ true
    → strip_padding (map to_url s ++ replicate k b'=') ≡ map to_url s
strip_padding-body [] k h = strip_padding-pads k
strip_padding-body (c ∷ s) k h =
    let (l, ls) = (and_iff (is_letter c) (all is_letter s)).0 h in
    rw (strip_padding-body s k ls, not_pad c l) refl

map-from_url : (s : Text) → all is_letter s ≡ true → map from_url (map to_url s) ≡ s
map-from_url [] h = refl
map-from_url (c ∷ s) h =
    let (l, ls) = (and_iff (is_letter c) (all is_letter s)).0 h in
    rw (map-from_url s ls, from_url-to_url c l) refl

module _ (b : Base64) (s : Text) (base : IsBase64 b s) where
  url_body : buffer_to_base64url b s ≡ map to_url base.body
  unfolding buffer_to_base64url
  url_body =
      let k = padded_length (length base.body) - length base.body in
      rw (base.padded, map-pads base.body k) (strip_padding-body base.body k base.letters)

  -- Where btoa and atob do at a buffer's bytes what is documented, the buffer that was written as
  -- base64url is read back as the same bytes.
  pub base64url_to_buffer-buffer_to_base64url :
      base64url_to_buffer b (buffer_to_base64url b s) ≡ some s
  unfolding base64url_to_buffer
  base64url_to_buffer-buffer_to_base64url = rw url_body (
      ap (λ t. b.atob (pad_end (padded_length (length t)) b'=' t))
        (map-from_url base.body base.letters)
      ∙ ap b.atob (sym base.padded)
      ∙ base.read_back)
