-- ===== src/Pages/Passkeys/Laws.antt =====
-- What the passkey section leaves in the cache, and when it goes to the login page.
use my_cars.Prelude.{
  ◌≡◌, refl, ap, ◌∙◌, Bool, true, false, List, [], ◌∷◌, Option, none, some, Text, codes,
  if◌then◌else◌,
}
use my_cars.Json.{Value, null}
use my_cars.Client.Http.{Platform, Result, ok, err}
use my_cars.Client.Account.{delete_passkey}
use my_cars.Auth.Session.{resolve_session}
use my_cars.Pages.Cache.{QueryClient, IsQueryClient, extended}
use my_cars.Pages.Keys.{passkeys_query_key, session_query_key}
use my_cars.Pages.Entries.{login_page}
use my_cars.Pages.Passkeys.Changes.{removed, drop, cached_list, list_value}
use my_cars.Pages.Passkeys.Changes.Laws.{lookup, store_step, lookup-drop}
use my_cars.Pages.Passkeys.{
  Section, update_list, signed_out, session_resolved, after_removal, removal_ended, remove_passkey,
}

cached_list-list_value : (vs : List Value) → cached_list (some (list_value vs)) ≡ vs
cached_list-list_value [] = refl
cached_list-list_value (v ∷ vs) = ap (λ k. v ∷ k) (cached_list-list_value vs)

-- The passkeys that are cached.
abbrev pub listed : {C W : Type 0} → QueryClient C W → C → List Value
listed q c = cached_list (q.get_query_data (extended passkeys_query_key []) c)

-- Whether nobody is signed in.
abbrev pub is_over : Result (Option Value) → Bool
is_over (ok none) = true
is_over (ok (some v)) = false
is_over (err e) = false

module _ {C W : Type 0} (q : QueryClient C W) (laws : IsQueryClient q) where
  listed-update_list :
      (f : List Value → List Value) (c : C) → listed q (update_list q f c) ≡ f (listed q c)
  listed-update_list f c =
      ap cached_list (
        laws.get_set passkeys_query_key (list_value (f (listed q c)))
          (extended passkeys_query_key []) c)
      ∙ cached_list-list_value (f (listed q c))

  listed-signed_out : (s : Section C) → listed q (signed_out q s).cache ≡ listed q s.cache
  unfolding signed_out
  listed-signed_out s =
      ap cached_list (laws.get_set session_query_key null (extended passkeys_query_key []) s.cache)

  listed-session_resolved :
      (r : Result (Option Value)) (s : Section C)
      → listed q (session_resolved q r s).cache ≡ listed q s.cache
  unfolding session_resolved
  listed-session_resolved (ok none) s = listed-signed_out s
  listed-session_resolved (ok (some v)) s = refl
  listed-session_resolved (err e) s = refl

  session_resolved-left :
      (r : Result (Option Value)) (s : Section C)
      → (session_resolved q r s).left
        ≡ (if is_over r then some (login_page (codes "/profile")) else s.left)
  unfolding session_resolved signed_out
  session_resolved-left (ok none) s = refl
  session_resolved-left (ok (some v)) s = refl
  session_resolved-left (err e) s = refl

  session_resolved-session :
      (r : Result (Option Value)) (s : Section C)
      → q.get_query_data (extended session_query_key []) (session_resolved q r s).cache ≡ (
          if is_over r then some null else q.get_query_data (extended session_query_key []) s.cache)
  unfolding session_resolved signed_out
  session_resolved-session (ok none) s =
      laws.get_set session_query_key null (extended session_query_key []) s.cache
  session_resolved-session (ok (some v)) s = refl
  session_resolved-session (err e) s = refl

  -- For a query client that keeps to its documentation, when the server has deleted a passkey, the
  -- cached list has none under its id and the same as before under every other id; and where the
  -- session turns out to have ended with it, the session is null in the cache and the section goes
  -- to the login page, from which the profile is returned to, and otherwise both are as before.
  pub remove_passkey-lookup :
      (p : Platform W) (id : Text) (s : Section C) (w w' : W)
      → delete_passkey p id w ≡ (ok tt, w')
      → (lookup (listed q (remove_passkey q p id s w).0.cache)
          ≡ store_step (removed id) (lookup (listed q s.cache)))
        × (q.get_query_data (extended session_query_key []) (remove_passkey q p id s w).0.cache ≡ (
            if is_over (resolve_session p w').0
            then some null
            else q.get_query_data (extended session_query_key []) s.cache))
        × ((remove_passkey q p id s w).0.left ≡ (
            if is_over (resolve_session p w').0
            then some (login_page (codes "/profile"))
            else s.left))
  unfolding remove_passkey removal_ended after_removal
  remove_passkey-lookup p id s w w' e =
      let r = (resolve_session p w').0 in
      let listed_less = record s { cache = update_list q (drop id) s.cache } in
      rw e (
        ap lookup (listed-session_resolved r listed_less ∙ listed-update_list (drop id) s.cache)
            ∙ (λ i k. lookup-drop id (listed q s.cache) k i),
        session_resolved-session r listed_less
            ∙ ap (λ o. if is_over r then some null else o)
                (laws.get_set passkeys_query_key (list_value (drop id (listed q s.cache)))
                  (extended session_query_key []) s.cache),
        session_resolved-left r listed_less,
      )
