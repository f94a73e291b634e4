-- ===== src/Secrets/Cache/Hits.antt =====
-- What the cache answers is what was stored last.
use forcefield.Base.{
  ◌∙◌, refl, ◌<◌, ◌≤◌, length, arith, ap, ltb, lookup, ◌≡◌, Option, ◌==◌, Bool, List, if◌then◌else◌,
  Bytes, ℕ, none, some, true, false, ◌||◌, Bool-cases, inl, inr,
}
use forcefield.Secrets.Cache.{
  cache_closed, context_done, invalid_reference, CacheEntry, invalid_reference_text,
  default_cache_entries, Found, Cache, hit, direct, refused, get_start, find_entry,
}
use forcefield.Secrets.Cache.Recent.{CacheEvent, Reaches, recent}
use forcefield.Secrets.Cache.Kept.{Valid, Reaches-Valid}

hit_injective : (a b : Bytes) → hit a ≡ hit b → a ≡ b
hit_injective a b e = ground arith

-- However the calls of all users of a cache are ordered, also while others wait for the backend, the
-- cache holds at most as many entries as it may; and when the first part of `Get` finds a secret for a
-- reference, it is the one that a call stored last for that reference, it was not invalidated, purged or
-- dropped by a close since, and its time is not over.
pub get_start-recent :
    (ttl max : ℕ) (c : Cache) (h : List CacheEvent)
    → Reaches ttl max c h
    → (length c.entries ≤ (if max == 0 then default_cache_entries else max))
      × ((context : Bool) (now : ℕ) (k v : Bytes)
          → (get_start context now k c).0 ≡ hit v
          → (x : ℕ) × (recent h k ≡ some record { secret = v; expires = x }) × (now < x))
get_start-recent ttl max c h r =
    let v = Reaches-Valid ttl max c h r in
    (
      omega (arith, v.sized, v.agrees.bounded),
      λ context now k s e. found_hit now k s v (lookup k c.entries) refl (
          past (c.ttl == 0 || c.max == 0) direct (find_entry now k c (lookup k c.entries)) s
            (λ q. ground arith)
            (past c.closed (refused cache_closed)
              (if c.ttl == 0 || c.max == 0
                then (direct, c)
                else find_entry now k c (lookup k c.entries))
              s (λ q. ground arith)
              (past context (refused context_done)
                (if c.closed
                  then (refused cache_closed, c)
                  else if c.ttl == 0 || c.max == 0
                  then (direct, c)
                  else find_entry now k c (lookup k c.entries))
                s (λ q. ground arith)
                (past (invalid_reference_text k) (refused invalid_reference)
                  (if context
                    then (refused context_done, c)
                    else if c.closed
                    then (refused cache_closed, c)
                    else if c.ttl == 0 || c.max == 0
                    then (direct, c)
                    else find_entry now k c (lookup k c.entries))
                  s (λ q. ground arith) (unfold get_start in e))))),
    )
  where
    past :
        (b : Bool) (f : Found) (y : Found × Cache) (s : Bytes)
        → (f ≡ hit s → ⊥)
        → (if b then (f, c) else y).0 ≡ hit s
        → y.0 ≡ hit s
    past true f y s n e = absurd (n e)
    past false f y s n e = e

    found_hit :
        (now : ℕ) (k s : Bytes)
        → Valid max c h
        → (o : Option CacheEntry) → lookup k c.entries ≡ o
        → (find_entry now k c o).0 ≡ hit s
        → (x : ℕ) × (recent h k ≡ some record { secret = s; expires = x }) × (now < x)
    found_hit now k s v none q e = unfold find_entry in absurd (ground arith)
    found_hit now k s v (some entry) q e = elim (Bool-cases (ltb now entry.expires)) [
      | inl y ↦
          let same : entry.secret ≡ s =
            hit_injective entry.secret s (unfold find_entry in (rw y at e)) in
          (
            entry.expires,
            v.agrees.recorded k entry q
                ∙ ap (λ z. some record { secret = z; expires = entry.expires }) same,
            ground arith,
          )
      | inr n ↦ unfold find_entry in absurd (let z = (rw n at e) in ground arith)
    ]
