-- ===== src/Pages/Account/Laws.antt =====
-- What the session's query holds after signing out, and where the guard of the pages then goes.
use my_cars.Prelude.{◌≡◌, refl, ap, Bool, true, false, [], some, Text, if◌then◌else◌}
use my_cars.Json.{null}
use my_cars.Client.Http.{Platform, Result, ok, err, unauthorized, api_error}
use my_cars.Client.Account.{logout}
use my_cars.Auth.ReturnTo.{UrlPlatform, valid_return_to}
use my_cars.Pages.Cache.{Key, QueryClient, IsQueryClient, extended}
use my_cars.Pages.Keys.{session_query_key}
use my_cars.Pages.Entries.{App, after}
use my_cars.Pages.Account.{
  after_logout, Loaded, redirected, checked, session_query, before_load, invalidate_logout,
  logged_out, log_out,
}

-- Whether nobody is signed in any more, from the server's answer to signing out.
abbrev pub is_signed_out : Result (Unit {0}) → Bool
is_signed_out (ok u) = true
is_signed_out (err unauthorized) = true
is_signed_out (err (api_error status code message fields)) = false

abbrev pub session_key : Key
session_key = extended session_query_key []

module _ {C W : Type 0} (q : QueryClient C W) (laws : IsQueryClient q) (p : Platform W)
    (url : UrlPlatform) (href : Text) where
  -- The guard of a page redirects to the login page, with the page's address as the target.
  abbrev pub turned_away : Loaded
  turned_away = redirected (valid_return_to url (some href))

  before_load-signed_out :
      (c : C) (v : W)
      → before_load q p url href (q.set_query_data session_query_key null c) v
        ≡ (turned_away, (q.set_query_data session_query_key null c, v))
  unfolding before_load
  before_load-signed_out c v =
      rw
        (laws.ensured_cached session_query_key (session_query p)
          (q.set_query_data session_query_key null c) v null
          (laws.get_set session_query_key null session_key c))
        refl

  before_load-after_logout :
      (r : Result (Unit {0})) (app : App C) (v : W)
      → before_load q p url href (after (λ u. logged_out q) (after_logout r) app).cache v ≡ (
          if is_signed_out r
          then (turned_away, (q.set_query_data session_query_key null app.cache, v))
          else before_load q p url href app.cache v)
  unfolding logged_out
  before_load-after_logout (ok u) app v = before_load-signed_out app.cache v
  before_load-after_logout (err unauthorized) app v = before_load-signed_out app.cache v
  before_load-after_logout (err (api_error status code message fields)) app v = refl

  -- For a query client that keeps to its documentation, signing out takes effect exactly if the
  -- server accepts it or answers that nobody is signed in: the guard of a page then redirects to the
  -- login page, with that page's address as the target to return to, and asks the server nothing.
  -- After any other answer the guard does what it would have done before.
  pub log_out-before_load :
      (app : App C) (w v : W)
      → before_load q p url href (log_out q p app w).0.cache v ≡ (
          if is_signed_out (logout p w).0
          then (turned_away, (q.set_query_data session_query_key null app.cache, v))
          else before_load q p url href app.cache v)
  unfolding log_out invalidate_logout
  log_out-before_load app w v = before_load-after_logout (logout p w).0 app v

  -- A guard that finds no session in the cache asks the server.
  pub before_load-afresh :
      (c : C) (v : W)
      → (before_load q p url href (q.remove_queries session_query_key c) v).0
        ≡ checked url href (session_query p v).0
  unfolding before_load
  before_load-afresh c v =
      ap (checked url href)
        (laws.ensured_fetched session_query_key (session_query p)
          (q.remove_queries session_query_key c) v
          (laws.get_removed session_query_key session_key c)).0
