-- ===== src/Auth/ReturnTo/Laws.antt =====
-- The results of validReturnTo in frontend/src/auth/return-to.ts.
use my_cars.Prelude.{
  ◌==◌, ◌≡◌, refl, ◌∙◌, ◌⊎◌, inl, inr, Bool, true, false, not, ◌||◌, [], ◌∷◌, ◌++◌, some, Text,
  codes, text_eq_iff, starts_with, any, arith, Bool-cases, Option-cases,
}
use my_cars.Auth.ReturnTo.{
  Url, UrlPlatform, default_return_to, local_part, non_empty, is_foreign, accept_url,
  valid_return_to,
}

-- A URL of the page's own origin with no credentials in it.
pub record IsOwn (p : UrlPlatform) (u : Url) : Type 0 where
  pub same_origin : u.origin ≡ p.window_origin
  pub no_username : u.username ≡ []
  pub no_password : u.password ≡ []

non_empty-eq-false : (s : Text) → non_empty s ≡ false → s ≡ []
non_empty-eq-false [] h = refl
non_empty-eq-false (c ∷ s) h = cc

is_foreign-IsOwn : (p : UrlPlatform) (u : Url) → is_foreign p u ≡ false → IsOwn p u
is_foreign-IsOwn p u h = record {
  same_origin = ground (arith, text_eq_iff u.origin p.window_origin);
  no_username = ground (arith, non_empty-eq-false u.username);
  no_password = ground (arith, non_empty-eq-false u.password);
}

IsOwn-is_foreign : (p : UrlPlatform) (u : Url) → IsOwn p u → is_foreign p u ≡ false
IsOwn-is_foreign p u own =
    rw (own.no_username, own.no_password, (text_eq_iff u.origin p.window_origin).1 own.same_origin)

-- The tests that the value itself has to pass.
pub record IsPlainPath (p : UrlPlatform) (value : Text) : Type 0 where
  pub rooted : starts_with value (codes "/") ≡ true
  pub one_slash : starts_with value (codes "//") ≡ false
  pub no_backslash : any (λ c. c == b'\\') value ≡ false
  pub decodes : p.decodes value ≡ true

abbrev fails : UrlPlatform → Text → Bool
fails p value =
    (not (starts_with value (codes "/")) || starts_with value (codes "//"))
    || (any (λ c. c == b'\\') value || not (p.decodes value))

fails-cases :
    (p : UrlPlatform) (value : Text)
    → (valid_return_to p (some value) ≡ default_return_to)
      ⊎ (IsPlainPath p value
          × (valid_return_to p (some value) ≡ accept_url p (p.parse_url value p.window_origin)))
unfolding valid_return_to
fails-cases p value = elim (Bool-cases (fails p value)) [
  | inl h ↦ inl (ground arith)
  | inr h ↦ inr (
    record {
      rooted = ground arith;
      one_slash = ground arith;
      no_backslash = ground arith;
      decodes = ground arith;
    },
    ground arith,
  )
]

plain_path_accepts :
    (p : UrlPlatform) (value : Text)
    → IsPlainPath p value
    → valid_return_to p (some value) ≡ accept_url p (p.parse_url value p.window_origin)
unfolding valid_return_to
plain_path_accepts p value h = rw (h.rooted, h.one_slash, h.no_backslash, h.decodes)

-- The result is the default, or the path, query and fragment of a URL that the given value parses
-- to, of the page's own origin and without credentials. In the second case the value starts with
-- one slash only, holds no backslash, and decodes.
pub valid_return_to-IsOwn :
    (p : UrlPlatform) (value : Text)
    → (valid_return_to p (some value) ≡ default_return_to)
      ⊎ ((u : Url) × (p.parse_url value p.window_origin ≡ some u)
          × IsOwn p u
          × IsPlainPath p value
          × (valid_return_to p (some value) ≡ local_part u))
valid_return_to-IsOwn p value = elim (fails-cases p value) [
  | inl h ↦ inl h
  | inr (plain, same) ↦ elim (Option-cases (p.parse_url value p.window_origin)) [
    | inl e ↦ inl (rw (same, e))
    | inr (u, e) ↦ elim (Bool-cases (is_foreign p u)) [
      | inl f ↦ inl (rw (same, e, f))
      | inr f ↦ inr (u, e, is_foreign-IsOwn p u f, plain, rw (same, e, f))
    ]
  ]
]

-- A value that passes the tests and parses to a URL of the page's own origin whose path starts
-- with two slashes is returned as a text that starts with two slashes; given back to the
-- function, that text is replaced by the default.
pub valid_return_to_double_slash :
    (p : UrlPlatform) (value rest : Text) (u : Url)
    → IsPlainPath p value
    → p.parse_url value p.window_origin ≡ some u
    → IsOwn p u
    → u.pathname ≡ codes "//" ++ rest
    → (valid_return_to p (some value) ≡ codes "//" ++ (rest ++ (u.search ++ u.hash)))
      × (valid_return_to p (some (valid_return_to p (some value))) ≡ default_return_to)
valid_return_to_double_slash p value rest u plain parsed own path =
    let out : valid_return_to p (some value) ≡ codes "//" ++ (rest ++ (u.search ++ u.hash)) =
      plain_path_accepts p value plain ∙ rw (parsed, IsOwn-is_foreign p u own, path) in
    (out, rw out (unfold valid_return_to in refl))
