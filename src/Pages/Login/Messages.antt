-- ===== src/Pages/Login/Messages.antt =====
-- The messages of frontend/src/routes/auth.login.tsx.
pub mod Laws
use my_cars.Prelude.{
  Bool, true, false, ◌||◌, List, [], ◌∷◌, ◌++◌, Option, none, some, if◌then◌else◌,
}
use my_cars.Pages.Login.{
  LoginError, is_rate_limited, passkey_rejected, passkey_unavailable, backend_validation,
  unexpected_error,
}

pub data Message : Type 0 where
  rejected rate_limited passkey_unavailable_message invalid_email unavailable : Message

-- The message below the button for passkeys.
unfoldable pub passkey_message : Option LoginError → Option Message
unfolding is_rate_limited passkey_rejected passkey_unavailable
passkey_message error =
    if passkey_rejected error || (is_rate_limited error || passkey_unavailable error)
    then (if passkey_rejected error
        then some rejected
        else if is_rate_limited error
        then some rate_limited
        else some passkey_unavailable_message)
    else none

abbrev shown_if : Bool → Message → List Message
shown_if true m = m ∷ []
shown_if false m = []

-- The messages of the form for a mailed link, by `invalid` and the mutation's error.
unfoldable pub link_messages : Bool → Option LoginError → List Message
unfolding is_rate_limited backend_validation unexpected_error
link_messages invalid error =
    shown_if (invalid || backend_validation error) invalid_email
    ++ (shown_if (is_rate_limited error) rate_limited
        ++ shown_if (unexpected_error error) unavailable)
