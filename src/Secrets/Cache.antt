-- ===== src/Secrets/Cache.antt =====
-- internal/secrets/cache.go and backends.go: the bounded cache of secrets. A call of `Get` holds the
-- lock twice, around the call of the backend: each of the two parts is an operation here. A secret is
-- destroyed only when no entry holds it, so that `Acquire` of an entry succeeds, and a lease is a copy:
-- both are the bytes. The list of the entries is kept by their references, the oldest first.
pub mod Recent
pub mod Kept
pub mod Hits
use forcefield.Base.{
  length, ◌==◌, ltb, ◌+◌, Map, mem_byte, if◌then◌else◌, List, Option, Bytes, put, delete, bytes_eq,
  Bool, lookup, ℕ, has_key, [], ◌∷◌, none, some, true, false, ◌++◌, ◌||◌, ◌&&◌, not,
}

pub record CacheEntry : Type 0 where
  pub secret : Bytes
  pub expires : ℕ

-- A `ttl` that is not positive is 0.
pub record Cache : Type 0 where
  pub ttl : ℕ
  pub max : ℕ
  pub entries : Map CacheEntry
  pub lru : List Bytes
  pub closed : Bool

pub data CacheError : Type 0 where
  invalid_reference context_done cache_closed : CacheError

abbrev pub default_cache_entries : ℕ
default_cache_entries = 128

-- `NewCache` with a backend; `none` is a negative bound.
unfoldable pub new_cache : ℕ → Option ℕ → Option Cache
new_cache ttl none = none
new_cache ttl (some max) = some record {
  ttl = ttl;
  max = if max == 0 then default_cache_entries else max;
  entries = [];
  lru = [];
  closed = false;
}

unfoldable pub invalid_reference_text : Bytes → Bool
unfolding bytes_eq mem_byte
invalid_reference_text reference = bytes_eq reference [] || mem_byte 0 reference

-- `list.Remove` of the element of a reference.
unfoldable pub remove : Bytes → List Bytes → List Bytes
unfolding bytes_eq
remove k [] = []
remove k (j ∷ lru) = let rest = remove k lru in if bytes_eq j k then rest else j ∷ rest

-- `list.PushFront`, and `MoveToFront` behind a removal.
unfoldable pub push_front : Bytes → List Bytes → List Bytes
push_front k lru = lru ++ k ∷ []

unfoldable pub remove_locked : Bytes → Cache → Cache
unfolding remove delete
remove_locked k c = record c { entries = delete k c.entries; lru = remove k c.lru }

unfoldable pub move_to_front : Bytes → Cache → Cache
unfolding remove push_front
move_to_front k c = record c { lru = push_front k (remove k c.lru) }

-- What the first part of `Get` does: a failure, the backend's own answer, a cached secret, or a load.
pub data Found : Type 0 where
  refused : CacheError → Found
  direct missed : Found
  hit : Bytes → Found

unfoldable pub find_entry : ℕ → Bytes → Cache → Option CacheEntry → Found × Cache
unfolding remove_locked move_to_front
find_entry now k c none = (missed, c)
find_entry now k c (some e) =
    if ltb now e.expires then (hit e.secret, move_to_front k c) else (missed, remove_locked k c)

-- `Get` up to the call of the backend; the context may be done.
unfoldable pub get_start : Bool → ℕ → Bytes → Cache → Found × Cache
unfolding find_entry invalid_reference_text lookup
get_start context now k c =
    if invalid_reference_text k
    then (refused invalid_reference, c)
    else if context
    then (refused context_done, c)
    else if c.closed
    then (refused cache_closed, c)
    else if c.ttl == 0 || c.max == 0
    then (direct, c)
    else find_entry now k c (lookup k c.entries)

-- The loop over the oldest entries while there are too many.
unfoldable pub evict : ℕ → List Bytes → Map CacheEntry → List Bytes × Map CacheEntry
unfolding delete
evict max [] entries = ([], entries)
evict max (k ∷ lru) entries =
    let rest = evict max lru (delete k entries) in
    if ltb max (length entries) then rest else (k ∷ lru, entries)

-- A new entry, behind the removal of an old one.
unfoldable pub store_entry : ℕ → Bytes → Bytes → Cache → Cache
unfolding remove push_front evict put
store_entry now k value c =
    let kept =
      evict c.max (push_front k (remove k c.lru))
        (put k record { secret = value; expires = now + c.ttl } c.entries) in
    record c { lru = kept.0; entries = kept.1 }

-- Another call may have stored an entry in between.
unfoldable pub is_fresh : ℕ → Option CacheEntry → Bool
is_fresh now none = false
is_fresh now (some e) = ltb now e.expires

abbrev pub secret_of : Bytes → Option CacheEntry → Bytes
secret_of value none = value
secret_of value (some e) = e.secret

-- `Get` after the backend gave `value`.
unfoldable pub get_finish : ℕ → Bytes → Bytes → Cache → Found × Cache
unfolding store_entry is_fresh move_to_front lookup
get_finish now k value c =
    let current = lookup k c.entries in
    if c.closed
    then (refused cache_closed, c)
    else if is_fresh now current
    then (hit (secret_of value current), move_to_front k c)
    else (hit value, store_entry now k value c)

unfoldable pub invalidate : Bytes → Cache → Cache
unfolding remove_locked has_key
invalidate k c = if has_key k c.entries then remove_locked k c else c

unfoldable pub detach_all : Bool → Cache → Cache
detach_all close c = record c { closed = c.closed || close; entries = []; lru = [] }

abbrev pub purge : Cache → Cache
purge c = detach_all false c

abbrev pub close : Cache → Cache
close c = detach_all true c
