-- ===== src/Pages/Passkeys.antt =====
-- frontend/src/components/passkey-section.tsx: the account's passkeys on the profile page. The
-- browser's prompt, the JSON of a credential and the translated name are parameters.
pub mod Changes
pub mod Laws
use my_cars.Prelude.{
  ℕ, ◌+◌, ◌==◌, Bool, true, false, not, ◌&&◌, List, [], ◌∷◌, ◌++◌, Option, none, some, Text, codes,
  text_eq, length, if◌then◌else◌,
}
use my_cars.Json.{Value, null, elements}
use my_cars.Client.Http.{
  Platform, Result, ok, err, ApiError, api_error, unauthorized, status_of, code_of,
}
use my_cars.Client.Account.{
  start_passkey_registration, register_passkey, rename_passkey, delete_passkey,
}
use my_cars.Auth.Passkeys.{
  Base64, Request, Prompted, credential, passkey_cancelled, failed, PublicKeyCredential,
  Attestation, CredentialJson, AttestationJson, create_passkey_credential,
}
use my_cars.Auth.Session.{resolve_session}
use my_cars.Forms.Texts.{trim}
use my_cars.Pages.Cache.{QueryClient, update_query_data, extended}
use my_cars.Pages.Keys.{passkeys_query_key, session_query_key}
use my_cars.Pages.Entries.{Page, login_page}
use my_cars.Pages.Login.{LoginError, api, cancelled, other}
use my_cars.Pages.Passkeys.Changes.{append, replace, drop, cached_list, list_value}

-- `Notice`, without null.
pub data Notice : Type 0 where
  added removed : Notice

-- What the section shows beside the list, the error of the mutation `add`, the cache, and where the
-- section has navigated to, if it has.
pub record Section (C : Type 0) : Type 0 where
  pub notice : Option Notice
  pub add_error : Option LoginError
  pub cache : C
  pub left : Option Page

-- What AddError shows.
pub data AddMessage : Type 0 where
  add_cancelled reauthenticate already_registered add_failed : AddMessage

abbrev api_message : ApiError → AddMessage
api_message e =
    if text_eq (code_of e) (codes "reauthentication_required")
    then reauthenticate
    else if status_of e == 409
    then already_registered
    else add_failed

unfoldable pub add_message : Option LoginError → Option AddMessage
add_message none = none
add_message (some cancelled) = some add_cancelled
add_message (some (api e)) = some (api_message e)
add_message (some other) = some add_failed

module _ {C W : Type 0} (q : QueryClient C W) where
  -- `queryClient.setQueryData(passkeysQueryKey, (list) => f(list ?? []))`
  abbrev pub update_list : (List Value → List Value) → C → C
  update_list f c =
      update_query_data q passkeys_query_key (λ list. some (list_value (f (cached_list list)))) c

  -- `add.onSuccess`
  unfoldable pub add_succeeded : Value → Section C → Section C
  add_succeeded created s = record {
    notice = some added;
    add_error = none;
    cache = update_list (append created) s.cache;
    left = s.left;
  }

  abbrev pub add_ended : Result Value → Section C → Section C
  unfolding add_succeeded
  add_ended (ok created) s = add_succeeded created s
  add_ended (err e) s = record s { add_error = some (api e) }

  -- `signedOut()`
  unfoldable pub signed_out : Section C → Section C
  signed_out s = record s {
    cache = q.set_query_data session_query_key null s.cache;
    left = some (login_page (codes "/profile"));
  }

  -- What afterRemoval does with the session: an error is taken for a session.
  abbrev pub session_resolved : Result (Option Value) → Section C → Section C
  unfolding signed_out
  session_resolved (ok none) s = signed_out s
  session_resolved (ok (some v)) s = record s { notice = some removed }
  session_resolved (err e) s = record s { notice = some removed }

  -- `afterRemoval(removedId)`
  unfoldable pub after_removal : Platform W → Text → Section C → W → Section C × W
  unfolding session_resolved resolve_session
  after_removal p id s w =
      let (session, w') = resolve_session p w in
      (session_resolved session (record s { cache = update_list (drop id) s.cache }), w')

  abbrev pub removal_ended : Platform W → Text → Section C → Result (Unit {0}) × W → Section C × W
  unfolding after_removal signed_out
  removal_ended p id s (ok u, w) = after_removal p id s w
  removal_ended p id s (err unauthorized, w) = (signed_out s, w)
  removal_ended p id s (err e, w) = (s, w)

  -- `remove.mutate()`, to its end.
  unfoldable pub remove_passkey : Platform W → Text → Section C → W → Section C × W
  unfolding removal_ended
  remove_passkey p id s w = removal_ended p id s (delete_passkey p id w)

  module _ (p : Platform W) (b : Base64)
      (ask : Value → W → Request (PublicKeyCredential Attestation) × W)
      (encode : CredentialJson AttestationJson → Value) (default_name : ℕ → Text) where
    abbrev registered : Result Value × W → Section C → Section C × W
    unfolding add_ended
    registered (r, w) s = (add_ended r s, w)

    -- The name has the number that the new passkey will have in the list.
    abbrev complete : Prompted (CredentialJson AttestationJson) → Section C → W → Section C × W
    unfolding registered
    complete passkey_cancelled s w = (record s { add_error = some cancelled }, w)
    complete (failed e) s w = (record s { add_error = some other }, w)
    complete (credential c) s w =
        let list = cached_list (q.get_query_data (extended passkeys_query_key []) s.cache) in
        registered (register_passkey p (default_name (length list + 1)) (encode c) w) s

    abbrev prompted : Result Value × W → Section C → Section C × W
    unfolding complete create_passkey_credential
    prompted (err e, w) s = (record s { add_error = some (api e) }, w)
    prompted (ok options, w) s =
        let (request, w') = ask options w in complete (create_passkey_credential b request) s w'

    -- `add.mutate()`, to its end.
    unfoldable pub add_passkey : Section C → W → Section C × W
    unfolding prompted
    add_passkey s w =
        prompted (start_passkey_registration p w) (record s { notice = none; add_error = none })

-- RenameForm: its input, whether it was empty, the error of the mutation `rename`, and whether the
-- form is open.
pub record RenameForm (C : Type 0) : Type 0 where
  pub name : Text
  pub is_empty : Bool
  pub error : Option ApiError
  pub editing : Bool
  pub cache : C

unfoldable pub change_name : {C : Type 0} → Text → RenameForm C → RenameForm C
change_name value f = record f { name = value; is_empty = false; error = none }

module _ {C W : Type 0} (q : QueryClient C W) where
  abbrev pub rename_ended : Result Value → RenameForm C → RenameForm C
  rename_ended (ok renamed) f = record f {
    is_empty = false;
    error = none;
    editing = false;
    cache = update_list q (replace renamed) f.cache;
  }
  rename_ended (err e) f = record f { is_empty = false; error = some e }

  abbrev pub send_name : Platform W → Text → Text → RenameForm C → W → RenameForm C × W
  send_name p id [] f w = (record f { is_empty = true }, w)
  send_name p id (c ∷ name) f w =
      let (r, w') = rename_passkey p id (c ∷ name) w in (rename_ended r f, w')

  -- `submit(event)`, and the mutation to its end.
  unfoldable pub submit_name : Platform W → Text → RenameForm C → W → RenameForm C × W
  unfolding trim
  submit_name p id f w = send_name p id (trim f.name) f w
