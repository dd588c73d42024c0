-- ===== src/Pages/Login/Email/Laws.antt =====
-- Which texts the login form takes for addresses.
use my_cars.Prelude.{◌≡◌, ◌≢◌, true, [], ◌∷◌, ◌++◌, Text, all}
use my_cars.Pages.Login.Email.{is_mail_code}

-- A local part, an at sign and two texts with a point between them, each of them non-empty and
-- without white space and at signs.
pub record IsEmail (s l a b : Text) : Type 0 where
  pub text : s ≡ l ++ (b'@' ∷ (a ++ (b'.' ∷ b)))
  pub local_given : l ≢ []
  pub host_given : a ≢ []
  pub end_given : b ≢ []
  pub codes_local : all is_mail_code l ≡ true
  pub codes_host : all is_mail_code a ≡ true
  pub codes_end : all is_mail_code b ≡ true
