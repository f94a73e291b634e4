-- ===== src/Secrets/Cache/Recent.antt =====
-- The cache against the history of what was stored and dropped.
use forcefield.Base.{
  ◌∙◌, sym, ltb, lookup-put, put, bytes_eq_refl, ◌≤◌, lookup-delete, ◌+◌, delete, length,
  bytes_eq_iff, arith, if◌then◌else◌, Bool, lookup, ◌≡◌, bytes_eq, Map, Option, Bytes, List, member,
  ℕ, [], ◌∷◌, none, some, true, false, ◌++◌, ◌||◌, Bool-cases, inl, inr,
}
use forcefield.Secrets.Cache.{
  evict, remove_locked, store_entry, move_to_front, detach_all, invalidate, is_fresh, CacheEntry,
  remove, new_cache, push_front, Cache, get_start, get_finish,
}

-- What happens to a cache: a value that the backend gave is stored until an instant, a reference is
-- invalidated, or everything is.
pub data CacheEvent : Type 0 where
  stored : Bytes → Bytes → ℕ → CacheEvent
  dropped : Bytes → CacheEvent
  emptied : CacheEvent

-- The abstract cache: for a reference the last value stored and its expiry, unless it was dropped since.
unfoldable pub recent : List CacheEvent → Bytes → Option CacheEntry
recent [] k = none
recent (stored j v x ∷ h) k =
    let rest = recent h k in if bytes_eq j k then some record { secret = v; expires = x } else rest
recent (dropped j ∷ h) k = let rest = recent h k in if bytes_eq j k then none else rest
recent (emptied ∷ h) k = none

-- The caches that sequences of the operations of all callers reach, with their histories.
pub data Reaches (ttl max : ℕ) : Cache → List CacheEvent → Type 0 where
  fresh : (c : Cache) → new_cache ttl (some max) ≡ some c → Reaches ttl max c []
  started :
      {c : Cache} {h : List CacheEvent}
      → Reaches ttl max c h
      → (context : Bool) (now : ℕ) (k : Bytes) → Reaches ttl max (get_start context now k c).1 h
  finished :
      {c : Cache} {h : List CacheEvent}
      → Reaches ttl max c h
      → (now : ℕ) (k value : Bytes) → c.closed ≡ false
      → is_fresh now (lookup k c.entries) ≡ false
      → Reaches ttl max (get_finish now k value c).1 (stored k value (now + c.ttl) ∷ h)
  overtaken :
      {c : Cache} {h : List CacheEvent}
      → Reaches ttl max c h
      → (now : ℕ) (k value : Bytes) → (c.closed || is_fresh now (lookup k c.entries)) ≡ true
      → Reaches ttl max (get_finish now k value c).1 h
  invalidated :
      {c : Cache} {h : List CacheEvent}
      → Reaches ttl max c h
      → (k : Bytes) → Reaches ttl max (invalidate k c) (dropped k ∷ h)
  detached :
      {c : Cache} {h : List CacheEvent}
      → Reaches ttl max c h
      → (close : Bool) → Reaches ttl max (detach_all close c) (emptied ∷ h)

-- Every entry is what the history has for its reference, and stands in the list.
pub record Agrees (c : Cache) (h : List CacheEvent) : Type 0 where
  pub recorded : (k : Bytes) (e : CacheEntry) → lookup k c.entries ≡ some e → recent h k ≡ some e
  pub listed : (k : Bytes) (e : CacheEntry) → lookup k c.entries ≡ some e → member k c.lru ≡ true
  pub bounded : length c.entries ≤ c.max

member-append :
    (k : Bytes) (s t : List Bytes) → (member k s || member k t) ≡ true → member k (s ++ t) ≡ true
unfolding member
member-append k [] t e = e
member-append k (j ∷ s) t e = ground (arith, member-append k s t)

member-remove :
    (j k : Bytes) (s : List Bytes)
    → bytes_eq k j ≡ false
    → member j s ≡ true
    → member j (remove k s) ≡ true
unfolding member remove
member-remove j k [] e m = m
member-remove j k (i ∷ s) e m =
    ground (arith, member-remove j k s e, bytes_eq_iff i k, bytes_eq_iff i j, bytes_eq_iff k j)

member-push_front :
    (j k : Bytes) (s : List Bytes)
    → (bytes_eq k j || member j s) ≡ true
    → member j (push_front k (remove k s)) ≡ true
unfolding push_front
member-push_front j k s m = elim (Bool-cases (bytes_eq k j)) [
  | inl y ↦ member-append j (remove k s) (k ∷ []) (unfold member in ground arith)
  | inr n ↦
      let kept = member-remove j k s n (ground arith) in
      member-append j (remove k s) (k ∷ []) (ground arith)
]

pub lookup-delete_kept :
    (k j : Bytes) (m : Map CacheEntry) (e : CacheEntry)
    → lookup j (delete k m) ≡ some e
    → (bytes_eq k j ≡ false) × (lookup j m ≡ some e)
lookup-delete_kept k j m e h = elim (Bool-cases (bytes_eq k j)) [
  | inl y ↦ absurd (let z = lookup-delete k j m in ground arith)
  | inr n ↦ (n, (let z = lookup-delete k j m in ground arith))
]

length-delete-le : (k : Bytes) (m : Map CacheEntry) → length (delete k m) ≤ length m
unfolding delete
length-delete-le k [] = omega arith
length-delete-le k ((j, v) ∷ m) = ground (arith, length-delete-le k m)

-- What the eviction leaves: some of the entries, each in the list, and not too many.
record Evicted (max : ℕ) (entries : Map CacheEntry) (r : List Bytes × Map CacheEntry) : Type 0 where
  pub kept : (k : Bytes) (e : CacheEntry) → lookup k r.1 ≡ some e → lookup k entries ≡ some e
  pub listed : (k : Bytes) (e : CacheEntry) → lookup k r.1 ≡ some e → member k r.0 ≡ true
  pub bounded : length r.1 ≤ max

evict-Evicted :
    (max : ℕ) (lru : List Bytes) (entries : Map CacheEntry)
    → ((k : Bytes) (e : CacheEntry) → lookup k entries ≡ some e → member k lru ≡ true)
    → Evicted max entries (evict max lru entries)
unfolding evict
evict-Evicted max [] [] l = record { kept = λ k e h. h; listed = l; bounded = omega arith }
evict-Evicted max [] ((j, v) ∷ entries) l = absurd (
    let z = l j v (unfold lookup in ground (arith, bytes_eq_refl j)) in
    unfold member in ground arith)
evict-Evicted max (i ∷ lru) entries l = elim (Bool-cases (ltb max (length entries))) [
  | inr n ↦ rw n record { kept = λ k e h. h; listed = l; bounded = ground arith }
  | inl y ↦
      let rest = evict-Evicted max lru (delete i entries) (λ k e h.
        let (other, was) = lookup-delete_kept i k entries e h in
        behind k i lru other (l k e was)) in
      rw y record {
        kept = λ k e h. (lookup-delete_kept i k entries e (rest.kept k e h)).1;
        listed = rest.listed;
        bounded = rest.bounded;
      }
]
  where
    behind :
        (k i : Bytes) (lru : List Bytes)
        → bytes_eq i k ≡ false
        → member k (i ∷ lru) ≡ true
        → member k lru ≡ true
    behind k i lru o m = unfold member in ground arith

-- An entry that is removed or moved leaves the cache in agreement.
pub remove_locked-Agrees :
    (k : Bytes) (c : Cache) (h : List CacheEvent) → Agrees c h → Agrees (remove_locked k c) h
unfolding remove_locked
remove_locked-Agrees k c h a = record {
  recorded = λ j e q. a.recorded j e (lookup-delete_kept k j c.entries e q).1;
  listed = λ j e q.
      let (other, was) = lookup-delete_kept k j c.entries e q in
      member-remove j k c.lru other (a.listed j e was);
  bounded = omega (arith, length-delete-le k c.entries, a.bounded);
}

pub move_to_front-Agrees :
    (k : Bytes) (c : Cache) (h : List CacheEvent) → Agrees c h → Agrees (move_to_front k c) h
unfolding move_to_front
move_to_front-Agrees k c h a = record {
  recorded = a.recorded;
  listed = λ j e q. member-push_front j k c.lru (let z = a.listed j e q in ground arith);
  bounded = a.bounded;
}

pub store_entry-Agrees :
    (now : ℕ) (k value : Bytes) (c : Cache) (h : List CacheEvent)
    → Agrees c h
    → Agrees (store_entry now k value c) (stored k value (now + c.ttl) ∷ h)
unfolding store_entry recent
store_entry-Agrees now k value c h a =
    let entry : CacheEntry = record { secret = value; expires = now + c.ttl } in
    let put_entries = put k entry c.entries in
    let evicted =
      evict-Evicted c.max (push_front k (remove k c.lru)) put_entries
        (λ j e q. member-push_front j k c.lru (place j e q)) in
    record {
      recorded = λ j e q. record_of j e (evicted.kept j e q);
      listed = evicted.listed;
      bounded = evicted.bounded;
    }
  where
    place :
        (j : Bytes) (e : CacheEntry)
        → lookup j (put k record { secret = value; expires = now + c.ttl } c.entries) ≡ some e
        → (bytes_eq k j || member j c.lru) ≡ true
    place j e q =
        let z = lookup-put k j record { secret = value; expires = now + c.ttl } c.entries in
        elim (Bool-cases (bytes_eq k j)) [
          | inl y ↦ ground arith
          | inr n ↦ let w = a.listed j e (sym (rw n at z) ∙ q) in ground arith
        ]

    record_of :
        (j : Bytes) (e : CacheEntry)
        → lookup j (put k record { secret = value; expires = now + c.ttl } c.entries) ≡ some e
        → (if bytes_eq k j
            then some record { secret = value; expires = now + c.ttl }
            else recent h j)
          ≡ some e
    record_of j e q =
        let z = lookup-put k j record { secret = value; expires = now + c.ttl } c.entries in
        elim (Bool-cases (bytes_eq k j)) [
          | inl y ↦ rw y (sym (rw y at z) ∙ q)
          | inr n ↦ rw n (a.recorded j e (sym (rw n at z) ∙ q))
        ]
