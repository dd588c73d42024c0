-- ===== src/Locale/Laws.antt =====
-- The language that a page of frontend/src/i18n/index.ts shows.
use my_cars.Prelude.{◌≡◌, refl, List, Text, any, Bool-cases, inl, inr, if◌then◌else◌}
use my_cars.Locale.{
  Locale, de, en, Page, locale_text, supported_locale, is_german, detect_locale, saved_locale,
  start_page, set_locale,
}

-- A page that is loaded after a language was chosen shows that language, whatever the browser's
-- languages are, where storage is available. Where it is not, the choice is lost with the page,
-- and the next page goes by the browser's languages.
pub start_page-set_locale :
    (p : Page) (locale : Locale) (browser_languages : List Text)
    → (start_page browser_languages (set_locale locale p)).language
      ≡ locale_text
          (if p.available then locale else if any is_german browser_languages then de else en)
unfolding set_locale start_page detect_locale saved_locale supported_locale
start_page-set_locale p de browser_languages = elim (Bool-cases p.available) [
  | inl e ↦ rw e refl
  | inr e ↦ rw e refl
]
start_page-set_locale p en browser_languages = elim (Bool-cases p.available) [
  | inl e ↦ rw e refl
  | inr e ↦ rw e refl
]
