-- ===== src/Front/Language.antt =====
-- apps/front/src/app/services/language.service.ts and constants/languages.constant.ts: the language of
-- the browser. What `localStorage` holds, and whether it throws, is state; so is the active language
-- of transloco.
pub mod Kept
use fullstack_starter.Prelude.{
  String, Bool, true, false, Option, none, some, List, [], ◌∷◌, any, JsMap, get, set, or_else,
  if◌then◌else◌, ◌==◌, present, split_on, to_lower_case,
}

abbrev pub available_langs : List String
available_langs = "es" ∷ "ca" ∷ "en" ∷ []

abbrev pub is_available : String → Bool
is_available lang = any (λ l. l == lang) available_langs

-- `navigator`: its `language`, and its `languages`
pub record Navigator : Type 0 where
  pub language : Option String
  pub languages : Option (List String)

abbrev pub first_of : List String → Option String
first_of [] = none
first_of (x ∷ xs) = some x

abbrev pub first_language : Option (List String) → Option String
first_language none = none
first_language (some languages) = first_of languages

-- `navigator.language || navigator.languages?.[0]`, if it is no empty text
abbrev pub browser_lang : Option String → Option (List String) → Option String
browser_lang none languages = present (first_language languages)
browser_lang (some language) languages = some language

abbrev pub known_or_english : String → String
known_or_english code = if is_available code then code else "en"

-- the code before the first dash
abbrev pub language_code : String → String
language_code lang = to_lower_case (or_else (first_of (split_on b'-' lang)) "")

abbrev pub detected : Option String → String
detected none = "en"
detected (some lang) = known_or_english (language_code lang)

unfoldable pub get_default_language : Option Navigator → String
unfolding split_on to_lower_case
get_default_language none = "en"
get_default_language (some n) = detected (browser_lang (present n.language) n.languages)

pub record LanguageState : Type 0 where
  pub items : JsMap String
  pub readable : Bool
  pub writable : Bool
  pub active : String
  pub current : String

abbrev pub storage_key : String
storage_key = "transloco-lang"

abbrev pub available_or : String → Option String → String
available_or default_lang none = default_lang
available_or default_lang (some stored) = if is_available stored then stored else default_lang

abbrev pub get_stored_language : String → LanguageState → String
get_stored_language default_lang s =
    if s.readable then available_or default_lang (get s.items storage_key) else default_lang

abbrev pub set_stored_language : String → LanguageState → LanguageState
set_stored_language lang s =
    if is_available lang
    then (if s.writable then record s { items = set s.items storage_key lang } else s)
    else s

-- the field's initial value and then `initializeLanguage`, which reads the storage again
unfoldable pub create_service : String → LanguageState → LanguageState
create_service default_lang s =
    let stored = get_stored_language default_lang s in
    if stored == s.active
    then record s { current = s.active }
    else record s { active = stored; current = stored }

unfoldable pub set_language : String → LanguageState → LanguageState
set_language lang s =
    if is_available lang
    then record (set_stored_language lang s) { active = lang; current = lang }
    else s

-- the languages that are chosen one after another
unfoldable pub choose : List String → LanguageState → LanguageState
unfolding set_language
choose [] s = s
choose (lang ∷ langs) s = choose langs (set_language lang s)
