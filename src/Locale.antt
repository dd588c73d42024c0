-- ===== src/Locale.antt =====
-- frontend/src/i18n/index.ts: the language of the user interface, saved or detected.
pub mod Laws
use mathlib.Core.Option
use my_cars.Prelude.{
  ℕ, ◌+◌, Bool, true, false, ◌&&◌, ◌||◌, List, [], ◌∷◌, Option, none, some, Text, codes, text_eq,
  starts_with, any, map, leb, if◌then◌else◌,
}

pub data Locale : Type 0 where
  de en : Locale

abbrev pub locale_text : Locale → Text
locale_text de = codes "de"
locale_text en = codes "en"

-- The value may be null or undefined.
unfoldable pub supported_locale : Option Text → Option Locale
supported_locale none = none
supported_locale (some value) =
    if text_eq value (codes "de")
    then some de
    else if text_eq value (codes "en")
    then some en
    else none

-- `toLowerCase` of one code unit: only an ASCII letter can become a letter of "de".
abbrev lower : ℕ → ℕ
lower c = if leb b'A' c && leb c b'Z' then c + 32 else c

-- `language.toLowerCase().startsWith('de')`
abbrev pub is_german : Text → Bool
is_german language = starts_with (map lower language) (codes "de")

unfoldable pub detect_locale : Option Text → List Text → Locale
unfolding supported_locale
detect_locale saved browser_languages = elim (supported_locale saved) [
  | some persisted ↦ persisted
  | none ↦ if any is_german browser_languages then de else en
]

-- The browser's storage under the key `my-car.locale`, and the language shown. Storage that is
-- not available throws on every access.
pub record Page : Type 0 where
  pub available : Bool
  pub stored : Option Text
  pub language : Text

unfoldable pub saved_locale : Page → Option Text
saved_locale p = if p.available then p.stored else none

-- The language that the page starts with.
unfoldable pub start_page : List Text → Page → Page
unfolding detect_locale saved_locale
start_page browser_languages p = record p {
  language = locale_text (detect_locale (saved_locale p) browser_languages);
}

unfoldable pub set_locale : Locale → Page → Page
set_locale locale p =
    let shown = record p { language = locale_text locale } in
    if p.available then record shown { stored = some (locale_text locale) } else shown
