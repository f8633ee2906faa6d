-- ===== src/Front/AppState.antt =====
-- apps/front/src/app/services/abstract-state.class.ts: a state that is kept in a storage of the
-- browser. `JSON.stringify`, `JSON.parse` and the truth of a value are parameters; the effect that
-- writes the state is a step of its own, as angular runs it later.
pub mod Reloads
use Prim.Native.String.{◌++◌}
use fullstack_starter.Prelude.{
  String, Bool, Option, none, some, JsMap, get, set, delete, if◌then◌else◌,
}
use fullstack_starter.Async.{Result, ok, error}

pub data StorageApi : Type 0 where
  local_storage session_storage : StorageApi

pub record StateConfig (T : Type 0) : Type 0 where
  pub state_name : String
  pub default_state : T
  pub storage_api : Option StorageApi

-- `window.localStorage` and `window.sessionStorage`
pub record Storages : Type 0 where
  pub local : JsMap String
  pub session : JsMap String

abbrev pub items_of : StorageApi → Storages → JsMap String
items_of local_storage w = w.local
items_of session_storage w = w.session

abbrev pub with_items : StorageApi → JsMap String → Storages → Storages
with_items local_storage items w = record w { local = items }
with_items session_storage items w = record w { session = items }

-- the signal, beside the window
pub record AppState (T : Type 0) : Type 0 where
  pub state : T
  pub window : Storages

module _ {T : Type 0} (stringify : T → String) (parse : String → Result T) (is_true : T → Bool)
    (options : StateConfig T) where
  abbrev pub storage_key : String
  storage_key = "State_" ++ options.state_name

  -- `parse(text) || defaultState`; a text that does not parse throws
  abbrev pub true_or_default : Result T → Result T
  true_or_default (ok value) = ok (if is_true value then value else options.default_state)
  true_or_default (error e) = error e

  abbrev pub parsed_or_default : Option String → Result T
  parsed_or_default none = ok options.default_state
  parsed_or_default (some text) = true_or_default (parse text)

  abbrev pub cache_in : Option StorageApi → Storages → Result T
  cache_in none w = ok options.default_state
  cache_in (some api) w = parsed_or_default (get (items_of api w) storage_key)

  unfoldable pub get_cache : Storages → Result T
  get_cache w = cache_in options.storage_api w

  abbrev pub started_at : Storages → Result T → Result (AppState T)
  started_at w (ok value) = ok (record { state = value; window = w })
  started_at w (error e) = error e

  -- the constructor
  unfoldable pub create_state : Storages → Result (AppState T)
  unfolding get_cache
  create_state w = started_at w (get_cache w)

  abbrev pub written : Option StorageApi → T → Storages → Storages
  written none value w = w
  written (some api) value w = with_items api (set (items_of api w) storage_key (stringify value)) w

  -- the effect
  unfoldable pub cache_state : AppState T → AppState T
  cache_state s = record s { window = written options.storage_api s.state s.window }

  abbrev pub update : (T → T) → AppState T → AppState T
  update f s = record s { state = f s.state }

  abbrev pub removed : Option StorageApi → Storages → Storages
  removed none w = w
  removed (some api) w = with_items api (delete (items_of api w) storage_key) w

  unfoldable pub clear_cache : AppState T → AppState T
  clear_cache s = record s { window = removed options.storage_api s.window }
