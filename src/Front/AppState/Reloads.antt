-- ===== src/Front/AppState/Reloads.antt =====
-- What a state is after a reload of the page.
use fullstack_starter.Prelude.{
  String, ◌≡◌, refl, ap, ◌∙◌, Bool, true, none, some, JsMap, get, set, delete, get-set, get-delete,
  if◌then◌else◌,
}
use fullstack_starter.Async.{Result, ok}
use fullstack_starter.Front.AppState.{
  StorageApi, local_storage, session_storage, StateConfig, Storages, items_of, with_items, AppState,
  storage_key, true_or_default, parsed_or_default, cache_in, get_cache, create_state, started_at,
  written, cache_state, update, removed, clear_cache,
}

items_of-with_items :
    (api : StorageApi) (items : JsMap String) (w : Storages)
    → items_of api (with_items api items w) ≡ items
items_of-with_items local_storage items w = refl
items_of-with_items session_storage items w = refl

module _ {T : Type 0} (stringify : T → String) (parse : String → Result T) (is_true : T → Bool)
    (options : StateConfig T) where
  read_back :
      (api : StorageApi) (value : T) (w : Storages)
      → parse (stringify value) ≡ ok value
      → is_true value ≡ true
      → cache_in stringify parse is_true options
          (some api)
          (written stringify parse is_true options (some api) value w)
        ≡ ok value
  read_back api value w back holds =
      let key = storage_key stringify parse is_true options in
      let items = set (items_of api w) key (stringify value) in
      let found : get (items_of api (with_items api items w)) key ≡ some (stringify value) =
        ap (λ js. get js key) (items_of-with_items api items w)
        ∙ get-set (items_of api w) key (stringify value) in
      ap (parsed_or_default stringify parse is_true options) found
      ∙ ap (true_or_default stringify parse is_true options) back
      ∙ ap (λ b. ok (if b then value else options.default_state)) holds

  gone :
      (api : StorageApi) (w : Storages)
      → cache_in stringify parse is_true options
          (some api)
          (removed stringify parse is_true options (some api) w)
        ≡ ok options.default_state
  gone api w =
      let key = storage_key stringify parse is_true options in
      let items = delete (items_of api w) key in
      let missing : get (items_of api (with_items api items w)) key ≡ none =
        ap (λ js. get js key) (items_of-with_items api items w) ∙ get-delete (items_of api w) key in
      ap (parsed_or_default stringify parse is_true options) missing

  -- the state of a new page on the storages that another one has left
  abbrev pub reload : AppState T → Result (AppState T)
  reload s = create_state stringify parse is_true options s.window

  -- A state that was updated, written by the effect and read again on a reload is the same one, if
  -- the options name a storage, JSON reads its text back, and the value is a true one; after the
  -- cache was cleared, a reload starts with the default state.
  pub update-reload :
      (api : StorageApi) (f : T → T) (s : AppState T)
      → options.storage_api ≡ some api
      → parse (stringify (f s.state)) ≡ ok (f s.state)
      → is_true (f s.state) ≡ true
      → let kept =
          cache_state stringify parse is_true options
            (update stringify parse is_true options f s) in
        (reload kept ≡ ok kept)
        × (reload (clear_cache stringify parse is_true options kept)
            ≡ ok (record (clear_cache stringify parse is_true options kept) {
              state = options.default_state;
            }))
  unfolding create_state cache_state clear_cache get_cache
  update-reload api f s kept_in back holds =
      let value = f s.state in
      let kept =
        cache_state stringify parse is_true options (update stringify parse is_true options f s) in
      let cleared = clear_cache stringify parse is_true options kept in
      (
        ap (started_at stringify parse is_true options kept.window) (
            ap
              (λ x.
                cache_in stringify parse is_true options x
                  (written stringify parse is_true options x value s.window))
              kept_in
            ∙ read_back api value s.window back holds),
        ap (started_at stringify parse is_true options cleared.window) (
            ap
              (λ x.
                cache_in stringify parse is_true options x
                  (removed stringify parse is_true options x kept.window))
              kept_in
            ∙ gone api kept.window),
      )
