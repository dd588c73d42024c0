-- ===== src/Pages/Login/Messages/Laws.antt =====
-- Which message the login page shows for an error.
use my_cars.Prelude.{
  ◌==◌, ◌≡◌, refl, false, List, [], ◌∷◌, Option, none, some, arith, if◌then◌else◌,
}
use my_cars.Client.Http.{status_of}
use my_cars.Pages.Login.{
  LoginError, api, cancelled, other, is_rate_limited, passkey_rejected, passkey_unavailable,
  backend_validation, unexpected_error,
}
use my_cars.Pages.Login.Messages.{
  Message, rejected, rate_limited, passkey_unavailable_message, invalid_email, unavailable,
  passkey_message, link_messages,
}

-- The message that an error of the passkey button stands for.
abbrev pub of_passkey : Option LoginError → Option Message
of_passkey none = none
of_passkey (some cancelled) = none
of_passkey (some other) = some passkey_unavailable_message
of_passkey (some (api e)) =
    if status_of e == 401
    then some rejected
    else if status_of e == 429
    then some rate_limited
    else some passkey_unavailable_message

-- The message that an error of the mailed link stands for.
abbrev pub of_link : LoginError → Message
of_link (api e) =
    if status_of e == 400
    then invalid_email
    else if status_of e == 429
    then rate_limited
    else unavailable
of_link _ = unavailable

abbrev pub of_links : Option LoginError → List Message
of_links none = []
of_links (some e) = of_link e ∷ []

-- A passkey error is shown by one message, by its status: rejected for 401, rate limited for 429,
-- and unavailable for any other; a cancelled prompt shows none. A failed request for a link is shown
-- by exactly one message if the address is valid: invalid for 400, rate limited for 429, and
-- unavailable for any other.
pub login_messages_lem :
    (error : Option LoginError)
    → (passkey_message error ≡ of_passkey error) × (link_messages false error ≡ of_links error)
unfolding passkey_message link_messages is_rate_limited passkey_rejected passkey_unavailable
    backend_validation unexpected_error
login_messages_lem none = (refl, refl)
login_messages_lem (some cancelled) = (refl, refl)
login_messages_lem (some other) = (refl, refl)
login_messages_lem (some (api e)) = ground arith
