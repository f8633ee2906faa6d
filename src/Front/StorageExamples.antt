-- ===== src/Front/StorageExamples.antt =====
-- Runs of what the front end keeps in a storage of the browser.
use fullstack_starter.Prelude.{
  String, ◌≡◌, refl, true, none, some, [], ◌∷◌, ◌==◌, not, split_on, to_lower_case,
}
use fullstack_starter.Async.{ok}
use fullstack_starter.Front.AppState.{
  create_state, get_cache, session_storage, StateConfig, AppState, cache_state, clear_cache,
}
use fullstack_starter.Front.AppState.Reloads.{reload, update-reload}
use fullstack_starter.Front.Language.{
  Navigator, LanguageState, create_service, get_default_language, choose,
}
use fullstack_starter.Front.Language.Kept.{IsConsistent, choose-IsConsistent}

abbrev valencian : Navigator
valencian = record { language = some "ca-ES"; languages = none }

abbrev first_visit : LanguageState
first_visit = record { items = []; readable = true; writable = true; active = "en"; current = "" }

starts_valencian :
    (create_service (get_default_language (some valencian)) first_visit).active ≡ "ca"
unfolding create_service get_default_language split_on to_lower_case
starts_valencian = refl

language_example :
    IsConsistent (
      choose
        ("es" ∷ "fr" ∷ [])
        (create_service (get_default_language (some valencian)) first_visit))
language_example = choose-IsConsistent (some valencian) ("es" ∷ "fr" ∷ []) first_visit

-- the second choice is no language of the application
keeps_spanish : (choose ("es" ∷ "fr" ∷ []) (create_service "ca" first_visit)).current ≡ "es"
unfolding choose create_service
keeps_spanish = refl

abbrev user_state : StateConfig String
user_state = record {
  state_name = "User";
  default_state = "none";
  storage_api = some session_storage;
}

abbrev empty_window : AppState String
empty_window = record { state = "none"; window = record { local = []; session = [] } }

abbrev updated : AppState String
updated =
    cache_state (λ s. s) ok (λ s. not (s == "")) user_state (record empty_window { state = "ana" })

abbrev forgotten : AppState String
forgotten = clear_cache (λ s. s) ok (λ s. not (s == "")) user_state updated

reload_example :
    (reload (λ s. s) ok (λ s. not (s == "")) user_state updated ≡ ok updated)
    × (reload (λ s. s) ok (λ s. not (s == "")) user_state forgotten
        ≡ ok (record forgotten { state = "none" }))
reload_example =
    update-reload (λ s. s) ok (λ s. not (s == "")) user_state session_storage (λ s. "ana")
      empty_window refl refl refl

-- a value that is not a true one is lost on a reload
loses_empty :
    reload
      (λ s. s)
      ok
      (λ s. not (s == ""))
      user_state
      (cache_state (λ s. s) ok (λ s. not (s == "")) user_state (record empty_window { state = "" }))
    ≡ ok (record {
      state = "none";
      window = record { local = []; session = record { key = "State_User"; value = "" } ∷ [] };
    })
unfolding create_state get_cache cache_state
loses_empty = refl
