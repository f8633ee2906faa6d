-- ===== src/Gateway/RequestCache.antt =====
-- `BoundedCacheProvider` of apps/gateway/src/sso/saml-client.ts: the ids of the requests that an
-- identity provider has not answered yet. `Date.now()` is an argument of each operation.
pub mod Bounds
pub mod History
use fullstack_starter.Prelude.{
  ℕ, suc, ◌-◌, ◌*◌, String, Bool, true, false, not, Option, none, some, List, [], ◌∷◌,
  if◌then◌else◌, ltb, leb, length, filter, JsMap, MapEntry, get, has, set, delete,
}

pub record CacheItem : Type 0 where
  pub value : String
  pub created_at : ℕ

abbrev pub RequestCache : Type 0
RequestCache = JsMap CacheItem

abbrev pub request_id_ttl_ms : ℕ
request_id_ttl_ms = 10 * 60000

abbrev pub request_cache_max_entries : ℕ
request_cache_max_entries = 10000

-- Where the clock has gone back the difference is negative in the source and 0 here, and neither is
-- over the limit.
abbrev pub is_expired : ℕ → CacheItem → Bool
is_expired now item = ltb request_id_ttl_ms (now - item.created_at)

unfoldable pub prune_expired : ℕ → RequestCache → RequestCache
prune_expired now entries = filter (λ e. not (is_expired now e.value)) entries

-- `entries.delete(entries.keys().next().value)`
unfoldable pub evict_oldest : RequestCache → RequestCache
evict_oldest [] = []
evict_oldest (e ∷ es) = delete (e ∷ es) e.key

unfoldable pub make_room : RequestCache → RequestCache
unfolding evict_oldest
make_room entries =
    if leb request_cache_max_entries (length entries) then evict_oldest entries else entries

-- The clock is read twice: by the pruning, and for the new entry.
unfoldable pub save_async : ℕ → ℕ → String → String → RequestCache → CacheItem × RequestCache
unfolding prune_expired make_room
save_async pruned_at now key value entries =
    let item : CacheItem = record { value = value; created_at = now } in
    (item, set (make_room (prune_expired pruned_at entries)) key item)

abbrev pub get_found : ℕ → String → Option CacheItem → RequestCache → Option String × RequestCache
get_found now key none entries = (none, entries)
get_found now key (some item) entries =
    if is_expired now item then (none, delete entries key) else (some item.value, entries)

unfoldable pub get_async : ℕ → String → RequestCache → Option String × RequestCache
get_async now key entries = get_found now key (get entries key) entries

unfoldable pub remove_async : Option String → RequestCache → Option String × RequestCache
remove_async none entries = (none, entries)
remove_async (some key) entries =
    if has entries key then (some key, delete entries key) else (none, entries)
