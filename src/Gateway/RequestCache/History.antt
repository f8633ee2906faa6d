-- ===== src/Gateway/RequestCache/History.antt =====
-- The cache against its history: the operations that have run on it, the last one first.
use fullstack_starter.Prelude.{
  ℕ, ◌-◌, ◌≤◌, String, ◌≡◌, refl, sym, ◌∙◌, Bool, true, not, Bool-cases, inl, inr, Option, none,
  some, List, [], ◌∷◌, arith, if◌then◌else◌, leb, length, filter, MapEntry, get, has, set, delete,
  UniqueKeys, get-set, get-set_other, get-delete, get-delete_other, get-has, has-set, has-delete,
  subst, get-filter_inv, Option-cases, eq_iff, ◌==◌, some_cancel,
}
use fullstack_starter.Gateway.RequestCache.{
  RequestCache, CacheItem, request_cache_max_entries, is_expired, prune_expired, evict_oldest,
  make_room, save_async, get_async, get_found, remove_async,
}
use fullstack_starter.Gateway.RequestCache.Bounds.{IsBounded, operations-IsBounded, prune-IsBounded}

pub data Operation : Type 0 where
  save : ℕ → ℕ → String → String → Operation
  read : ℕ → String → Operation
  remove : Option String → Operation

unfoldable pub apply : Operation → RequestCache → RequestCache
unfolding save_async get_async remove_async
apply (save now later key value) entries = (save_async now later key value entries).1
apply (read now key) entries = (get_async now key entries).1
apply (remove key) entries = (remove_async key entries).1

-- the cache after a history
unfoldable pub after : List Operation → RequestCache
unfolding apply
after [] = []
after (op ∷ ops) = apply op (after ops)

-- What an unbounded store that never forgets would hold: what was last saved under the key, unless it
-- was removed since.
abbrev pub outstanding : List Operation → String → Option CacheItem
outstanding [] k = none
outstanding (save now later key value ∷ ops) k =
    let rest = outstanding ops k in
    if key == k then some (record { value = value; created_at = later }) else rest
outstanding (read now key ∷ ops) k = outstanding ops k
outstanding (remove none ∷ ops) k = outstanding ops k
outstanding (remove (some key) ∷ ops) k =
    let rest = outstanding ops k in if key == k then none else rest

apply-IsBounded : (op : Operation) (es : RequestCache) → IsBounded es → IsBounded (apply op es)
unfolding apply
apply-IsBounded (save now later key value) es h =
    (operations-IsBounded now later key value none es h).0
apply-IsBounded (read now key) es h = (operations-IsBounded now now key "" none es h).1
apply-IsBounded (remove key) es h = (operations-IsBounded 0 0 "" "" key es h).2

pub after-IsBounded : (ops : List Operation) → IsBounded (after ops)
unfolding after
after-IsBounded [] = (tt, omega arith)
after-IsBounded (op ∷ ops) = apply-IsBounded op (after ops) (after-IsBounded ops)

-- Every entry of the smaller cache is one of the larger.
abbrev Within : RequestCache → RequestCache → Type 0
Within es fs = (k : String) (item : CacheItem) → get es k ≡ some item → get fs k ≡ some item

filter-Within :
    (test : MapEntry CacheItem → Bool) (es : RequestCache)
    → UniqueKeys es
    → Within (filter test es) es
filter-Within test es unique k item h = (get-filter_inv test es k item unique h).0

evict-Within : (es : RequestCache) → UniqueKeys es → Within (evict_oldest es) es
unfolding evict_oldest
evict-Within [] unique k item h = h
evict-Within (e ∷ es) unique k item h =
    filter-Within (λ x. not (x.key == e.key)) (e ∷ es) unique k item h

make_room-Within : (es : RequestCache) → UniqueKeys es → Within (make_room es) es
unfolding make_room
make_room-Within es unique k item h =
    elim (Bool-cases (leb request_cache_max_entries (length es))) [
      | inl full ↦ evict-Within es unique k item (rw full at h)
      | inr room ↦ rw room at h
    ]

get_found-Within :
    (now : ℕ) (key : String) (found : Option CacheItem) (es : RequestCache)
    → UniqueKeys es
    → Within (get_found now key found es).1 es
get_found-Within now key none es unique k item h = h
get_found-Within now key (some found) es unique k item h =
    elim (Bool-cases (is_expired now found)) [
      | inl old ↦ filter-Within (λ e. not (e.key == key)) es unique k item (rw old at h)
      | inr fresh ↦ rw fresh at h
    ]

-- What the cache holds is outstanding.
IsSound : List Operation → RequestCache → Type 0
IsSound ops es =
    (k : String) (item : CacheItem) → get es k ≡ some item → outstanding ops k ≡ some item

save-IsSound :
    (now later : ℕ) (key value : String) (ops : List Operation) (es : RequestCache)
    → IsBounded es
    → IsSound ops es
    → IsSound (save now later key value ∷ ops) (apply (save now later key value) es)
unfolding IsSound apply save_async prune_expired
save-IsSound now later key value ops es h sound k item found =
    let room = make_room (prune_expired now es) in
    let saved : CacheItem = record { value = value; created_at = later } in
    elim (Bool-cases (key == k)) [
      | inl same ↦ rw same (
          sym (get-set room key saved)
          ∙ subst (λ j. get (set room key saved) j ≡ some item) (sym ((eq_iff _ _).0 same)) found)
      | inr apart ↦
          let before = sym (get-set_other room key k saved apart) ∙ found in
          let pruned =
            make_room-Within (prune_expired now es) (prune-IsBounded now es h).0 k item before in
          rw apart
            (sound k item (filter-Within (λ e. not (is_expired now e.value)) es h.0 k item pruned))
    ]

remove-IsSound :
    (removed : Option String) (ops : List Operation) (es : RequestCache)
    → IsBounded es
    → IsSound ops es
    → IsSound (remove removed ∷ ops) (apply (remove removed) es)
unfolding IsSound apply remove_async
remove-IsSound none ops es h sound k item found = sound k item found
remove-IsSound (some key) ops es h sound k item found =
    let left : get (remove_async (some key) es).1 k ≡ some item = found in
    elim (Bool-cases (has es key)) [
      | inl there ↦ elim (Bool-cases (key == k)) [
        | inl same ↦
            let gone = get-delete es key in
            let read =
              subst (λ j. get (delete es key) j ≡ some item) (sym ((eq_iff _ _).0 same))
                (rw there at left) in
            cc (gone, read)
        | inr apart ↦
            rw apart (sound k item (sym (get-delete_other es key k apart) ∙ rw there at left))
      ]
      | inr missing ↦ elim (Bool-cases (key == k)) [
        | inl same ↦ cc (get-has es key missing, (eq_iff _ _).0 same, rw missing at left)
        | inr apart ↦ rw apart (sound k item (rw missing at left))
      ]
    ]

after-IsSound : (ops : List Operation) → IsSound ops (after ops)
unfolding IsSound after apply get_async
after-IsSound [] k item h = cc
after-IsSound (save now later key value ∷ ops) k item h =
    save-IsSound now later key value ops (after ops) (after-IsBounded ops) (after-IsSound ops) k
      item h
after-IsSound (read now key ∷ ops) k item h =
    let es = after ops in
    after-IsSound ops k item
      (get_found-Within now key (get es key) es (after-IsBounded ops).0 k item h)
after-IsSound (remove key ∷ ops) k item h =
    remove-IsSound key ops (after ops) (after-IsBounded ops) (after-IsSound ops) k item h

-- The cache against a store that never forgets, whatever operations have run on it: a text that it
-- answers for a key is the one that was last saved under the key, was not removed since, and is no
-- older than ten minutes.
pub get_async-outstanding :
    (ops : List Operation) (now : ℕ) (key value : String)
    → (get_async now key (after ops)).0 ≡ some value
    → (item : CacheItem) × (outstanding ops key ≡ some item)
      × (item.value ≡ value)
      × (now - item.created_at ≤ 600000)
unfolding get_async IsSound
get_async-outstanding ops now key value h = elim (Option-cases (get (after ops) key)) [
  | inl missing ↦ cc (rw missing at h)
  | inr (item, found) ↦ elim (Bool-cases (is_expired now item)) [
    | inl old ↦ cc (rw (found, old) at h)
    | inr fresh ↦
        (item, after-IsSound ops key item found, some_cancel (rw (found, fresh) at h), ground arith)
  ]
]

get_found-fresh :
    (now : ℕ) (key : String) (item : CacheItem) (es : RequestCache)
    → now - item.created_at ≤ 600000
    → (get_found now key (some item) es).0 ≡ some item.value
get_found-fresh now key item es fresh = ground arith

-- A removal of a request that is there, and what later calls find.
removed_once :
    (key : String) (last : ℕ) (es : RequestCache)
    → has es key ≡ true
    → let removed = remove_async (some key) es in
      (removed.0 ≡ some key)
      × ((get_async last key removed.1).0 ≡ none)
      × ((remove_async (some key) removed.1).0 ≡ none)
unfolding remove_async get_async
removed_once key last es there =
    rw there (refl, rw (get-delete es key) refl, rw (has-delete es key) refl)

-- A request that is saved is found until it is ten minutes old, and only once: after its removal
-- nothing is found under its key, and a second removal finds nothing either.
pub request_single_use :
    (pruned_at now later last : ℕ) (key value : String) (es : RequestCache)
    → later - now ≤ 600000
    → ((get_async later key (save_async pruned_at now key value es).1).0 ≡ some value)
      × (let removed = remove_async (some key) (save_async pruned_at now key value es).1 in
          (removed.0 ≡ some key)
          × ((get_async last key removed.1).0 ≡ none)
          × ((remove_async (some key) removed.1).0 ≡ none))
unfolding save_async get_async
request_single_use pruned_at now later last key value es fresh =
    let item : CacheItem = record { value = value; created_at = now } in
    let room = make_room (prune_expired pruned_at es) in
    (
      rw (get-set room key item) (get_found-fresh later key item (set room key item) fresh),
      removed_once key last (set room key item)
          (has-set room key key item ∙ rw ((eq_iff key key).1 refl) refl),
    )
