-- ===== src/Client/Account.antt =====
-- The endpoints for attachments, sessions, the profile, sign-in and passkeys in
-- frontend/src/api/client.ts.
use my_cars.Prelude.{◌==◌, Bool, not, Text, codes, if◌then◌else◌}
use my_cars.Json.{Value, str, obj, member, end, read}
use my_cars.Client.Guards.{is_attachment, is_attachment_list, is_attachment_limits, is_profile}
use my_cars.Client.Guards.Session.{
  is_session, is_authentication_methods, is_passkey_summary, is_passkey_list, is_web_authn_options,
}
use my_cars.Client.Http.{
  Platform, Exec, Result, ok, err, Response, File, form_file, ◌>>=◌, lift, is_ok, error_from,
  json_body, invalid_response, expect_no_content, fetch_api, default_init, json_request,
  method_only,
}
use my_cars.Client.Query.{AttachmentOwner, attachments_path, attachment_path, passkey_path}
use my_cars.Client.Entries.{fetch_decoded, fetch_deleted}

-- The decoding of a response where a 401 is an error like any other: getAuthenticationMethods
-- and startPasskeyLogin.
unfoldable pub decoded_public : Response → (Value → Bool) → Result Value
unfolding json_body
decoded_public r guard = if not (is_ok r) then err (error_from r) else elim (json_body r) [
  | err e ↦ err e
  | ok body ↦ if guard body then ok body else err invalid_response
]

-- requestMagicLink: accepted with 202.
unfoldable pub accepted : Response → Result (Unit {0})
accepted r =
    if not (is_ok r)
    then err (error_from r)
    else if r.status == 202
    then ok tt
    else err invalid_response

abbrev read_items : Value → Value
read_items v = read v "items"

module _ {W : Type 0} (p : Platform W) where
  unfoldable pub get_authentication_methods : Exec W Value
  get_authentication_methods = do
    r ← fetch_api p (codes "/api/v1/auth/methods") default_init
    lift (decoded_public r is_authentication_methods)

  unfoldable pub get_session : Exec W Value
  get_session = fetch_decoded p (codes "/api/v1/session") default_init is_session

  unfoldable pub get_me : Exec W Value
  get_me = fetch_decoded p (codes "/api/v1/me") default_init is_profile

  unfoldable pub update_me : Value → Exec W Value
  update_me input =
      fetch_decoded p (codes "/api/v1/me") (json_request (codes "PATCH") input) is_profile

  unfoldable pub get_attachments : AttachmentOwner → Exec W Value
  get_attachments owner = do
    body ← fetch_decoded p (attachments_path p owner) default_init is_attachment_list
    lift (ok (read_items body))

  unfoldable pub upload_attachment : AttachmentOwner → File → Exec W Value
  upload_attachment owner file =
      fetch_decoded p (attachments_path p owner)
        (record (method_only (codes "POST")) { body = form_file (codes "file") file file.name })
        is_attachment

  unfoldable pub delete_attachment : Text → Exec W (Unit {0})
  delete_attachment id = fetch_deleted p (attachment_path p id)

  unfoldable pub get_attachment_limits : Exec W Value
  get_attachment_limits =
      fetch_decoded p (codes "/api/v1/attachments/limits") default_init is_attachment_limits

  unfoldable pub request_magic_link : Value → Exec W (Unit {0})
  request_magic_link input = do
    r ← fetch_api p (codes "/api/v1/auth/magic-links") (json_request (codes "POST") input)
    lift (accepted r)

  unfoldable pub logout : Exec W (Unit {0})
  logout = fetch_deleted p (codes "/api/v1/session")

  unfoldable pub get_passkeys : Exec W Value
  get_passkeys = do
    body ← fetch_decoded p (codes "/api/v1/passkeys") default_init is_passkey_list
    lift (ok (read_items body))

  unfoldable pub start_passkey_registration : Exec W Value
  start_passkey_registration =
      fetch_decoded p (codes "/api/v1/passkeys/registration-options") (method_only (codes "POST"))
        is_web_authn_options

  unfoldable pub register_passkey : Text → Value → Exec W Value
  register_passkey name credential =
      fetch_decoded p (codes "/api/v1/passkeys")
        (json_request (codes "POST")
          (obj (member (codes "name") (str name) (member (codes "credential") credential end))))
        is_passkey_summary

  unfoldable pub rename_passkey : Text → Text → Exec W Value
  rename_passkey id name =
      fetch_decoded p (passkey_path p id)
        (json_request (codes "PATCH") (obj (member (codes "name") (str name) end)))
        is_passkey_summary

  unfoldable pub delete_passkey : Text → Exec W (Unit {0})
  delete_passkey id = fetch_deleted p (passkey_path p id)

  unfoldable pub start_passkey_login : Exec W Value
  start_passkey_login = do
    r ← fetch_api p (codes "/api/v1/auth/passkey/options") (method_only (codes "POST"))
    lift (decoded_public r is_web_authn_options)

  unfoldable pub complete_passkey_login : Value → Exec W (Unit {0})
  complete_passkey_login credential = do
    r ← fetch_api p (codes "/api/v1/auth/passkey") (json_request (codes "POST") credential)
    lift (expect_no_content r)
