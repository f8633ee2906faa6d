-- ===== src/Front/Language/Kept.antt =====
-- What holds of the language, whatever is chosen and stored.
use text.Mathlib.TextEquality.{eq_iff}
use fullstack_starter.Prelude.{
  String, ◌≡◌, refl, sym, ap, ◌∙◌, inl, inr, true, Bool-cases, Option, none, some, List, [], ◌∷◌,
  get, get-set, if_either, if◌then◌else◌, ◌==◌, present,
}
use fullstack_starter.Front.Language.{
  is_available, Navigator, browser_lang, known_or_english, language_code, detected,
  get_default_language, LanguageState, storage_key, available_or, get_stored_language,
  create_service, set_language, choose,
}

known_or_english-available : (code : String) → is_available (known_or_english code) ≡ true
known_or_english-available code = elim (Bool-cases (is_available code)) [
  | inl known ↦ rw known known
  | inr unknown ↦ rw unknown
]

detected-available : (lang : Option String) → is_available (detected lang) ≡ true
detected-available none = refl
detected-available (some lang) = known_or_english-available (language_code lang)

default-available :
    (navigator : Option Navigator) → is_available (get_default_language navigator) ≡ true
unfolding get_default_language
default-available none = refl
default-available (some n) = detected-available (browser_lang (present n.language) n.languages)

-- the language of the service is the one that transloco shows, and it is one of the available ones
pub record IsConsistent (s : LanguageState) : Type 0 where
  pub shown : s.current ≡ s.active
  pub available : is_available s.current ≡ true

available_or-available :
    (default_lang : String) (stored : Option String)
    → is_available default_lang ≡ true
    → is_available (available_or default_lang stored) ≡ true
available_or-available default_lang none h = h
available_or-available default_lang (some stored) h = elim (Bool-cases (is_available stored)) [
  | inl known ↦ rw known known
  | inr unknown ↦ rw unknown h
]

stored-available :
    (default_lang : String) (s : LanguageState)
    → is_available default_lang ≡ true
    → is_available (get_stored_language default_lang s) ≡ true
stored-available default_lang s h =
    if_either (λ l. is_available l ≡ true) s.readable
      (available_or-available default_lang (get s.items storage_key) h) h

started-IsConsistent :
    (stored : String) (s : LanguageState)
    → is_available stored ≡ true
    → IsConsistent (
        if stored == s.active
        then record s { current = s.active }
        else record s { active = stored; current = stored })
started-IsConsistent stored s h = elim (Bool-cases (stored == s.active)) [
  | inl same ↦
      rw same (record { shown = refl; available = ap is_available (sym ((eq_iff _ _).0 same)) ∙ h })
  | inr apart ↦ rw apart (record { shown = refl; available = h })
]

create_service-IsConsistent :
    (default_lang : String) (s : LanguageState)
    → is_available default_lang ≡ true
    → IsConsistent (create_service default_lang s)
unfolding create_service
create_service-IsConsistent default_lang s h =
    started-IsConsistent (get_stored_language default_lang s) s (stored-available default_lang s h)

set_language-IsConsistent :
    (lang : String) (s : LanguageState) → IsConsistent s → IsConsistent (set_language lang s)
unfolding set_language
set_language-IsConsistent lang s h = elim (Bool-cases (is_available lang)) [
  | inl known ↦ rw known (record { shown = refl; available = known })
  | inr unknown ↦ rw unknown h
]

choose_on-IsConsistent :
    (langs : List String) (s : LanguageState) → IsConsistent s → IsConsistent (choose langs s)
unfolding choose
choose_on-IsConsistent [] s h = h
choose_on-IsConsistent (lang ∷ langs) s h =
    choose_on-IsConsistent langs (set_language lang s) (set_language-IsConsistent lang s h)

-- The language of the service is one of the available ones and the one that transloco shows,
-- whatever the navigator says, the storage holds or refuses, and the user has chosen.
pub choose-IsConsistent :
    (navigator : Option Navigator) (langs : List String) (s : LanguageState)
    → IsConsistent (choose langs (create_service (get_default_language navigator) s))
choose-IsConsistent navigator langs s =
    choose_on-IsConsistent langs (create_service (get_default_language navigator) s)
      (create_service-IsConsistent (get_default_language navigator) s (default-available navigator))

-- the service is created again on the same storage, with some language of transloco
abbrev pub reloaded : String → String → LanguageState → LanguageState
reloaded default_lang active s = create_service default_lang (record s { active = active })

started-current :
    (stored : String) (s : LanguageState)
    → (if stored == s.active
        then record s { current = s.active }
        else record s { active = stored; current = stored }).current
      ≡ stored
started-current stored s = elim (Bool-cases (stored == s.active)) [
  | inl same ↦ rw same (sym ((eq_iff _ _).0 same))
  | inr apart ↦ rw apart refl
]

set_language-stored :
    (lang : String) (s : LanguageState)
    → is_available lang ≡ true
    → s.writable ≡ true
    → (get (set_language lang s).items storage_key ≡ some lang)
      × ((set_language lang s).readable ≡ s.readable)
unfolding set_language
set_language-stored lang s known writable =
    rw (known, writable) (get-set s.items storage_key lang, refl)

found_again :
    (default_lang lang : String) (s : LanguageState)
    → is_available lang ≡ true
    → s.readable ≡ true
    → get s.items storage_key ≡ some lang
    → get_stored_language default_lang s ≡ lang
found_again default_lang lang s known readable held = rw (readable, held, known)

-- An available language that is chosen is the one of the service after a reload, where the storage
-- can be read and written, whatever transloco shows then.
pub set_language-restored :
    (default_lang active lang : String) (s : LanguageState)
    → is_available lang ≡ true
    → s.readable ≡ true
    → s.writable ≡ true
    → (reloaded default_lang active (set_language lang s)).current ≡ lang
unfolding create_service
set_language-restored default_lang active lang s known readable writable =
    let (held, still) = set_language-stored lang s known writable in
    let after : LanguageState = record (set_language lang s) { active = active } in
    started-current (get_stored_language default_lang after) after
    ∙ found_again default_lang lang after known (still ∙ readable) held
