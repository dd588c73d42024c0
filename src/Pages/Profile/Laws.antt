-- ===== src/Pages/Profile/Laws.antt =====
-- What saving the profile leaves in the cache.
use mathlib.Core.Option
use my_cars.Prelude.{
  ◌≡◌, refl, ap, ◌∙◌, [], Option, some, Text, codes, text_eq, text_eq_iff, arith, if◌then◌else◌,
}
use my_cars.Json.{Value, Members, obj, end, member, get, find_member}
use my_cars.Client.Http.{Platform, ok}
use my_cars.Client.Account.{update_me}
use my_cars.Pages.Cache.{QueryClient, IsQueryClient, extended, set_given, update_query_data}
use my_cars.Pages.Keys.{session_query_key, profile_query_key}
use my_cars.Pages.Profile.{
  ProfileForm, with_member, updated_session, input_of, form_values, saved, finished, submit,
}

with_member_lem :
    (j k : Text) (v : Value) (ms : Members)
    → find_member k (with_member j v ms) ≡ (if text_eq j k then v else find_member k ms)
with_member_lem j k v end = refl
with_member_lem j k v (member m u ms) =
    ground (arith, with_member_lem j k v ms, text_eq_iff m j, text_eq_iff m k, text_eq_iff j k)

-- A member of the session that is cached.
abbrev pub session_member : {C W : Type 0} → QueryClient C W → Text → C → Option Value
session_member q k c =
    Option.map (λ s. get s k) (q.get_query_data (extended session_query_key []) c)

-- For a query client that keeps to its documentation, where a session is cached and the server
-- saves the profile, the form shows the saved profile, the profile's query holds it, and the cached
-- session has it as its profile and keeps all its other members.
pub submit-lookup :
    {C W : Type 0} (q : QueryClient C W) (laws : IsQueryClient q) (p : Platform W)
    (f : ProfileForm C) (w w' : W) (profile : Value) (ms : Members) (k : Text)
    → update_me p (input_of f.values) w ≡ (ok profile, w')
    → q.get_query_data (extended session_query_key []) f.cache ≡ some (obj ms)
    → ((submit q p f w).0.values ≡ form_values profile)
      × (q.get_query_data (extended profile_query_key []) (submit q p f w).0.cache ≡ some profile)
      × (session_member q k (submit q p f w).0.cache
          ≡ some (if text_eq (codes "profile") k then profile else find_member k ms))
unfolding submit finished saved
submit-lookup q laws p f w w' profile ms k sent session =
    let c = q.set_query_data profile_query_key profile f.cache in
    let key = extended session_query_key [] in
    let changed = obj (with_member (codes "profile") profile ms) in
    let updated : update_query_data q session_query_key (updated_session profile) c
        ≡ q.set_query_data session_query_key changed c =
      ap (λ o. set_given q session_query_key c (updated_session profile o))
        (laws.get_set profile_query_key profile key f.cache ∙ session) in
    rw sent (
      refl,
      ap (q.get_query_data (extended profile_query_key [])) updated
          ∙ laws.get_set session_query_key changed (extended profile_query_key []) c
          ∙ laws.get_set profile_query_key profile (extended profile_query_key []) f.cache,
      ap (session_member q k) updated
          ∙ ap (Option.map (λ s. get s k)) (laws.get_set session_query_key changed key c)
          ∙ ap some (with_member_lem (codes "profile") k profile ms),
    )
