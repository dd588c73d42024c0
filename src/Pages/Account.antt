-- ===== src/Pages/Account.antt =====
-- The session in the cache: frontend/src/routes/_authenticated/route.tsx, and the logout of
-- frontend/src/components/app-shell.tsx.
pub mod Laws
use my_cars.Prelude.{
  ℕ, ◌+◌, ◌==◌, Bool, true, false, not, ◌&&◌, List, [], ◌∷◌, Option, none, some, Text, codes,
  text_eq, keep, if◌then◌else◌,
}
use my_cars.Json.{
  Value, Members, undefined, null, bool, num, str, arr, obj, end, member, is_null, read,
}
use my_cars.Client.Http.{Platform, Exec, Result, ok, err, ApiError, unauthorized}
use my_cars.Client.Account.{logout, update_me}
use my_cars.Auth.Session.{resolve_session}
use my_cars.Auth.ReturnTo.{UrlPlatform, valid_return_to}
use my_cars.Pages.Cache.{QueryClient, update_query_data}
use my_cars.Pages.Keys.{session_query_key, profile_query_key}
use my_cars.Pages.Entries.{App, Page, start_page, after}

-- The session as data of its query: null where nobody is signed in.
abbrev pub session_value : Result (Option Value) → Result Value
session_value (ok none) = ok null
session_value (ok (some v)) = ok v
session_value (err e) = err e

-- The query function of `sessionQueryOptions`.
unfoldable pub session_query : {W : Type 0} → Platform W → Exec W Value
unfolding resolve_session
session_query p w = let (r, w') = resolve_session p w in (session_value r, w')

-- How `beforeLoad` ends: with a session, with a redirect to the login page, or with an error.
pub data Loaded : Type 0 where
  loaded : Value → Loaded
  redirected : Text → Loaded
  load_failed : ApiError → Loaded

-- `!session`, of a session or null.
abbrev pub is_absent : Value → Bool
is_absent null = true
is_absent undefined = true
is_absent _ = false

abbrev pub checked : UrlPlatform → Text → Result Value → Loaded
checked url href (err e) = load_failed e
checked url href (ok session) =
    if is_absent session then redirected (valid_return_to url (some href)) else loaded session

abbrev pub after_logout : Result (Unit {0}) → Result (Unit {0})
after_logout (ok u) = ok u
after_logout (err unauthorized) = ok tt
after_logout (err e) = err e

-- `invalidateLogout`: a session that has ended already is no error.
unfoldable pub invalidate_logout : {W : Type 0} → Platform W → Exec W (Unit {0})
invalidate_logout p w = let (r, w') = logout p w in (after_logout r, w')

module _ {C W : Type 0} (q : QueryClient C W) where
  -- `beforeLoad` of the authenticated routes, at the address `href`.
  unfoldable pub before_load : Platform W → UrlPlatform → Text → C → W → Loaded × (C × W)
  unfolding session_query
  before_load p url href c w =
      let (r, rest) = q.ensure_query_data session_query_key (session_query p) c w in
      (checked url href r, rest)

  -- `logout.onSuccess`
  unfoldable pub logged_out : App C → App C
  logged_out app = record {
    cache = q.set_query_data session_query_key null app.cache;
    page = start_page;
  }

  -- `logout.mutate()`, to its end.
  unfoldable pub log_out : Platform W → App C → W → App C × W
  unfolding invalidate_logout logged_out
  log_out p app w = let (r, w') = invalidate_logout p w in (after (λ u. logged_out) r app, w')

  -- What `retry` of SessionError does to the cache.
  unfoldable pub retry_session : C → C
  retry_session c = q.remove_queries session_query_key c
