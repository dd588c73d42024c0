-- ===== src/Pages/Login/Laws.antt =====
-- What the login page sends, and what the guard of the pages does after signing in.
use my_cars.Prelude.{◌≡◌, Text}
use my_cars.Client.Http.{Platform}
use my_cars.Auth.ReturnTo.{UrlPlatform}
use my_cars.Pages.Cache.{QueryClient, IsQueryClient}
use my_cars.Pages.Entries.{App}
use my_cars.Pages.Account.{before_load, checked, session_query, retry_session}
use my_cars.Pages.Account.Laws.{before_load-afresh}
use my_cars.Pages.Login.{signed_in}

-- For a query client that keeps to its documentation, the guard of a page that is visited after
-- signing in by passkey, or after retrying, uses the session that the server then gives, whatever
-- was cached before.
pub before_load-signed_in :
    {C W : Type 0} (q : QueryClient C W) (laws : IsQueryClient q) (p : Platform W)
    (url : UrlPlatform) (href return_to : Text) (app : App C) (v : W)
    → ((before_load q p url href (signed_in q return_to app).cache v).0
        ≡ checked url href (session_query p v).0)
      × ((before_load q p url href (retry_session q app.cache) v).0
          ≡ checked url href (session_query p v).0)
unfolding signed_in retry_session
before_load-signed_in q laws p url href return_to app v = (
  before_load-afresh q laws p url href app.cache v,
  before_load-afresh q laws p url href app.cache v,
)
