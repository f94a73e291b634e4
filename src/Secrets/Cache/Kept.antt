-- ===== src/Secrets/Cache/Kept.antt =====
-- Every operation keeps the cache in agreement with its history.
use forcefield.Base.{
  sym, ◌+◌, refl, subst, arith, ap, bytes_eq_iff, has_key_lem, bytes_eq, ltb, lookup, has_key, ◌≡◌,
  Option, ◌==◌, Bool, List, if◌then◌else◌, Bytes, ℕ, [], ◌∷◌, none, some, true, false, ◌||◌,
  Bool-cases, inl, inr,
}
use forcefield.Secrets.Cache.{
  secret_of, detach_all, is_fresh, store_entry, cache_closed, context_done, new_cache,
  invalid_reference, move_to_front, remove_locked, CacheEntry, invalid_reference_text,
  default_cache_entries, Found, invalidate, Cache, hit, direct, refused, get_start, get_finish,
  find_entry,
}
use forcefield.Secrets.Cache.Recent.{
  store_entry-Agrees, move_to_front-Agrees, remove_locked-Agrees, lookup-delete_kept, CacheEvent,
  stored, dropped, emptied, Reaches, fresh, started, finished, overtaken, invalidated, detached,
  Agrees, recent,
}

abbrev pub effective_max : ℕ → ℕ
effective_max max = if max == 0 then default_cache_entries else max

pub record Valid (max : ℕ) (c : Cache) (h : List CacheEvent) : Type 0 where
  pub agrees : Agrees c h
  pub sized : c.max ≡ effective_max max

find_entry-Valid :
    (max now : ℕ) (k : Bytes) (c : Cache) (h : List CacheEvent) (o : Option CacheEntry)
    → Valid max c h
    → Valid max (find_entry now k c o).1 h
unfolding find_entry
find_entry-Valid max now k c h none v = v
find_entry-Valid max now k c h (some e) v = elim (Bool-cases (ltb now e.expires)) [
  | inl y ↦ rw y record {
    agrees = move_to_front-Agrees k c h v.agrees;
    sized = unfold move_to_front in v.sized;
  }
  | inr n ↦ rw n record {
    agrees = remove_locked-Agrees k c h v.agrees;
    sized = unfold remove_locked in v.sized;
  }
]

get_start-Valid :
    (max : ℕ) (context : Bool) (now : ℕ) (k : Bytes) (c : Cache) (h : List CacheEvent)
    → Valid max c h
    → Valid max (get_start context now k c).1 h
unfolding get_start
get_start-Valid max context now k c h v =
    chosen (invalid_reference_text k) (refused invalid_reference, c)
      (if context
        then (refused context_done, c)
        else if c.closed
        then (refused cache_closed, c)
        else if c.ttl == 0 || c.max == 0
        then (direct, c)
        else found)
      v
      (chosen context (refused context_done, c)
        (if c.closed
          then (refused cache_closed, c)
          else if c.ttl == 0 || c.max == 0
          then (direct, c)
          else found)
        v
        (chosen c.closed (refused cache_closed, c)
          (if c.ttl == 0 || c.max == 0 then (direct, c) else found) v
          (chosen (c.ttl == 0 || c.max == 0) (direct, c) found v
            (find_entry-Valid max now k c h (lookup k c.entries) v))))
  where
    found : Found × Cache
    found = find_entry now k c (lookup k c.entries)

    chosen :
        (b : Bool) (x y : Found × Cache)
        → Valid max x.1 h
        → Valid max y.1 h
        → Valid max (if b then x else y).1 h
    chosen true x y p q = p
    chosen false x y p q = q

invalidate-Valid :
    (max : ℕ) (k : Bytes) (c : Cache) (h : List CacheEvent)
    → Valid max c h
    → Valid max (invalidate k c) (dropped k ∷ h)
unfolding invalidate recent
invalidate-Valid max k c h v = elim (Bool-cases (has_key k c.entries)) [
  | inl y ↦ rw y (
      unfold remove_locked in
      record {
        agrees = record {
          recorded = λ j e q.
              let (other, was) = lookup-delete_kept k j c.entries e q in
              rw other (v.agrees.recorded j e was);
          listed = (remove_locked-Agrees k c h v.agrees).listed;
          bounded = (remove_locked-Agrees k c h v.agrees).bounded;
        };
        sized = v.sized;
      })
  | inr n ↦ rw n record {
    agrees = record {
      recorded = λ j e q. elim (Bool-cases (bytes_eq k j)) [
        | inl same ↦ absurd (
            let absent = (has_key_lem k c.entries).0 n in
            let at = (bytes_eq_iff k j).0 same in
            let here = ap (λ i. lookup i c.entries) at in ground arith)
        | inr other ↦ rw other (v.agrees.recorded j e q)
      ];
      listed = v.agrees.listed;
      bounded = v.agrees.bounded;
    };
    sized = v.sized;
  }
]

get_finish-stored :
    (now : ℕ) (k value : Bytes) (c : Cache)
    → c.closed ≡ false
    → is_fresh now (lookup k c.entries) ≡ false
    → get_finish now k value c ≡ (hit value, store_entry now k value c)
unfolding get_finish
get_finish-stored now k value c e f = ground (arith, e, f)

get_finish-Valid :
    (max now : ℕ) (k value : Bytes) (c : Cache) (h : List CacheEvent)
    → c.closed ≡ false
    → is_fresh now (lookup k c.entries) ≡ false
    → Valid max c h
    → Valid max (get_finish now k value c).1 (stored k value (now + c.ttl) ∷ h)
get_finish-Valid max now k value c h opened stale v =
    subst (λ x. Valid max x.1 (stored k value (now + c.ttl) ∷ h))
      (sym (get_finish-stored now k value c opened stale))
      record {
        agrees = store_entry-Agrees now k value c h v.agrees;
        sized = unfold store_entry in v.sized;
      }

detach_all-Valid :
    (max : ℕ) (close : Bool) (c : Cache) (h : List CacheEvent)
    → Valid max c h
    → Valid max (detach_all close c) (emptied ∷ h)
unfolding detach_all recent lookup
detach_all-Valid max close c h v = record {
  agrees = record {
    recorded = λ k e q. absurd (ground arith);
    listed = λ k e q. absurd (ground arith);
    bounded = omega arith;
  };
  sized = v.sized;
}

get_finish-kept :
    (max now : ℕ) (k value : Bytes) (c : Cache) (h : List CacheEvent)
    → (c.closed || is_fresh now (lookup k c.entries)) ≡ true
    → Valid max c h
    → Valid max (get_finish now k value c).1 h
unfolding get_finish
get_finish-kept max now k value c h late v =
    chosen c.closed (is_fresh now (lookup k c.entries)) (refused cache_closed, c)
      (hit (secret_of value (lookup k c.entries)), move_to_front k c)
      (hit value, store_entry now k value c) late v
      record {
        agrees = move_to_front-Agrees k c h v.agrees;
        sized = unfold move_to_front in v.sized;
      }
  where
    chosen :
        (b d : Bool) (x y z : Found × Cache)
        → (b || d) ≡ true
        → Valid max x.1 h
        → Valid max y.1 h
        → Valid max (if b then x else if d then y else z).1 h
    chosen true d x y z e p q = p
    chosen false true x y z e p q = q
    chosen false false x y z e p q = absurd (ground arith)

pub Reaches-Valid :
    (ttl max : ℕ) (c : Cache) (h : List CacheEvent) → Reaches ttl max c h → Valid max c h
unfolding get_finish
Reaches-Valid ttl max c _ (fresh _ e) = started_valid (some_injective _ c (unfold new_cache in e))
  where
    some_injective : (a b : Cache) → ◌≡◌ {A = Option Cache} (some a) (some b) → a ≡ b
    some_injective a b e = ground arith

    started_valid :
        record { ttl = ttl; max = effective_max max; entries = []; lru = []; closed = false } ≡ c
        → Valid max c []
    started_valid e =
        subst (λ x. Valid max x []) e
          record {
            agrees = record {
              recorded = λ k e q. unfold lookup in absurd (ground arith);
              listed = λ k e q. unfold lookup in absurd (ground arith);
              bounded = omega arith;
            };
            sized = refl;
          }
Reaches-Valid ttl max _ h (started {c} r context now k) =
    get_start-Valid max context now k c h (Reaches-Valid ttl max c h r)
Reaches-Valid ttl max _ _ (finished {c} {h} r now k value opened stale) =
    get_finish-Valid max now k value c h opened stale (Reaches-Valid ttl max c h r)
Reaches-Valid ttl max _ h (overtaken {c} r now k value late) =
    get_finish-kept max now k value c h late (Reaches-Valid ttl max c h r)
Reaches-Valid ttl max _ _ (invalidated {c} {h} r k) =
    invalidate-Valid max k c h (Reaches-Valid ttl max c h r)
Reaches-Valid ttl max _ _ (detached {c} {h} r close) =
    detach_all-Valid max close c h (Reaches-Valid ttl max c h r)
