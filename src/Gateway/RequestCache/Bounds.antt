-- ===== src/Gateway/RequestCache/Bounds.antt =====
-- The cache of request ids is bounded, and forgets the oldest request first.
use fullstack_starter.Prelude.{
  ℕ, ◌≤◌, ◌<◌, String, refl, not, Bool-cases, inl, inr, Option, none, some, [], ◌∷◌, arith, leb,
  length, get, has, set, delete, UniqueKeys, filter-UniqueKeys, set-UniqueKeys, length-filter,
  length-set, eq_iff, ◌==◌,
}
use fullstack_starter.Gateway.RequestCache.{
  RequestCache, CacheItem, request_cache_max_entries, is_expired, prune_expired, evict_oldest,
  make_room, save_async, get_async, get_found, remove_async,
}

-- At most the limit of entries, of which no two have one key.
abbrev pub IsBounded : RequestCache → Type 0
IsBounded entries = UniqueKeys entries × (length entries ≤ request_cache_max_entries)

abbrev pub NotFull : RequestCache → Type 0
NotFull entries = UniqueKeys entries × (length entries < request_cache_max_entries)

pub prune-IsBounded :
    (now : ℕ) (es : RequestCache) → IsBounded es → IsBounded (prune_expired now es)
unfolding prune_expired
prune-IsBounded now es (unique, bound) = (
  filter-UniqueKeys (λ e. not (is_expired now e.value)) es unique,
  omega (arith, bound, length-filter (λ e. not (is_expired now e.value)) es),
)

delete-IsBounded : (key : String) (es : RequestCache) → IsBounded es → IsBounded (delete es key)
delete-IsBounded key es (unique, bound) = (
  filter-UniqueKeys (λ e. not (e.key == key)) es unique,
  omega (arith, bound, length-filter (λ e. not (e.key == key)) es),
)

evict-NotFull : (es : RequestCache) → IsBounded es → NotFull (evict_oldest es)
unfolding evict_oldest
evict-NotFull [] h = (tt, omega arith)
evict-NotFull (e ∷ es) (unique, bound) = (
  filter-UniqueKeys (λ x. not (x.key == e.key)) (e ∷ es) unique,
  rw ((eq_iff e.key e.key).1 refl)
      (omega (arith, bound, length-filter (λ x. not (x.key == e.key)) es)),
)

make_room-NotFull : (es : RequestCache) → IsBounded es → NotFull (make_room es)
unfolding make_room
make_room-NotFull es h = elim (Bool-cases (leb request_cache_max_entries (length es))) [
  | inl full ↦ rw full (evict-NotFull es h)
  | inr room ↦ rw room (h.0, ground arith)
]

set-IsBounded :
    (key : String) (item : CacheItem) (es : RequestCache) → NotFull es → IsBounded (set es key item)
set-IsBounded key item es (unique, room) =
    (set-UniqueKeys es key item unique, omega (arith, room, length-set es key item))

get_found-IsBounded :
    (now : ℕ) (key : String) (found : Option CacheItem) (es : RequestCache)
    → IsBounded es
    → IsBounded (get_found now key found es).1
get_found-IsBounded now key none es h = h
get_found-IsBounded now key (some item) es h = elim (Bool-cases (is_expired now item)) [
  | inl old ↦ rw old (delete-IsBounded key es h)
  | inr fresh ↦ rw fresh h
]

remove-IsBounded :
    (removed : Option String) (es : RequestCache)
    → IsBounded es
    → IsBounded (remove_async removed es).1
unfolding remove_async
remove-IsBounded none es h = h
remove-IsBounded (some key) es h = elim (Bool-cases (has es key)) [
  | inl there ↦ rw there (delete-IsBounded key es h)
  | inr missing ↦ rw missing h
]

-- Every operation keeps the cache within its limit and its keys apart, whatever the clock shows.
pub operations-IsBounded :
    (now later : ℕ) (key value : String) (removed : Option String) (es : RequestCache)
    → IsBounded es
    → IsBounded (save_async now later key value es).1
      × IsBounded (get_async now key es).1
      × IsBounded (remove_async removed es).1
unfolding save_async get_async
operations-IsBounded now later key value removed es h =
    let item : CacheItem = record { value = value; created_at = later } in
    (
      set-IsBounded key item (make_room (prune_expired now es))
          (make_room-NotFull (prune_expired now es) (prune-IsBounded now es h)),
      get_found-IsBounded now key (get es key) es h,
      remove-IsBounded removed es h,
    )
