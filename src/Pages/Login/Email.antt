-- ===== src/Pages/Login/Email.antt =====
-- The pattern of an address that frontend/src/routes/auth.login.tsx accepts.
pub mod Laws
use my_cars.Prelude.{ℕ, ◌==◌, Bool, true, false, not, ◌&&◌, ◌||◌, [], ◌∷◌, Text, all, if◌then◌else◌}
use my_cars.Forms.Texts.{is_space}

-- `[^\s@]`
abbrev pub is_mail_code : ℕ → Bool
is_mail_code c = not (is_space c) && not (c == b'@')

-- A point with something behind it.
abbrev pub has_inner_point : Text → Bool
has_inner_point [] = false
has_inner_point (c ∷ []) = false
has_inner_point (c ∷ d ∷ s) = let rest = has_inner_point (d ∷ s) in c == b'.' || rest

-- `[^\s@]+\.[^\s@]+`
abbrev pub is_domain : Text → Bool
is_domain [] = false
is_domain (c ∷ s) = all is_mail_code (c ∷ s) && has_inner_point s

-- `[^\s@]+@`, of which something has been read or nothing, and the domain behind it.
abbrev pub is_address : Bool → Text → Bool
is_address started [] = false
is_address started (c ∷ s) =
    let rest = is_address true s in
    if c == b'@' then started && is_domain s else is_mail_code c && rest

-- `/^[^\s@]+@[^\s@]+\.[^\s@]+$/.test(value)`
unfoldable pub valid_email : Text → Bool
valid_email value = is_address false value
