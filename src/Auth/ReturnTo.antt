-- ===== src/Auth/ReturnTo.antt =====
-- frontend/src/auth/return-to.ts: where the browser goes after signing in. The URL parser,
-- decodeURI and URLSearchParams are the browser's, and parameters.
pub mod Laws
use my_cars.Prelude.{
  ℕ, ◌==◌, Bool, true, false, not, ◌&&◌, ◌||◌, List, [], ◌∷◌, ◌++◌, Option, none, some, Text, codes,
  text_eq, starts_with, any, if◌then◌else◌,
}

-- A parsed URL.
pub record Url : Type 0 where
  pub origin : Text
  pub username : Text
  pub password : Text
  pub pathname : Text
  pub search : Text
  pub hash : Text

-- The browser. `parse_url` is `new URL(value, base)`, and none where it throws; `decodes` says
-- that decodeURI does not throw.
pub record UrlPlatform : Type 0 where
  pub window_origin : Text
  pub parse_url : Text → Text → Option Url
  pub decodes : Text → Bool
  pub url_search_params : List (Text × Text) → Text

abbrev pub default_return_to : Text
default_return_to = codes "/home"

abbrev non_empty : Text → Bool
non_empty [] = false
non_empty (c ∷ s) = true

-- A part of the URL's text behind the origin.
abbrev pub local_part : Url → Text
local_part u = u.pathname ++ (u.search ++ u.hash)

abbrev pub is_foreign : UrlPlatform → Url → Bool
is_foreign p u =
    not (text_eq u.origin p.window_origin) || (non_empty u.username || non_empty u.password)

abbrev accept_url : UrlPlatform → Option Url → Text
accept_url p none = default_return_to
accept_url p (some u) = if is_foreign p u then default_return_to else local_part u

abbrev check_value : UrlPlatform → Text → Text
check_value p value =
    if not (starts_with value (codes "/")) || starts_with value (codes "//")
    then default_return_to
    else if any (λ c. c == b'\\') value
    then default_return_to
    else if not (p.decodes value)
    then default_return_to
    else accept_url p (p.parse_url value p.window_origin)

-- The value may be null or undefined.
unfoldable pub valid_return_to : UrlPlatform → Option Text → Text
valid_return_to p none = default_return_to
valid_return_to p (some value) = check_value p value

unfoldable pub oidc_start_url : UrlPlatform → Text → Text
unfolding valid_return_to
oidc_start_url p return_to =
    codes "/api/v1/auth/oidc/start?"
    ++ p.url_search_params ((codes "returnTo", valid_return_to p (some return_to)) ∷ [])
