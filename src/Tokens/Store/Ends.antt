-- ===== src/Tokens/Store/Ends.antt =====
-- Postconditions of the store's operations: of the value and the state after a success, and of the
-- state after an error.
use forcefield.Base.{
  ℕ, ◌≤◌, ◌≡◌, refl, subst, inl, inr, Bool, true, false, Option, none, some, arith, Bool-cases,
  Bytes, Result, ok, err, reject, check, lookup, IsMap,
}
use forcefield.Tokens.Types.{StoreError, store_closed, TokenRecord, Records, Options, Store}
use forcefield.Tokens.Lineage.{Checked, IsLinked}
use forcefield.Tokens.Prune.Keeps.{Pruned, prune_inactive-Pruned, Pruned-IsLinked, kept_from}
use forcefield.Tokens.Persist.{persist, persist-committed}
use forcefield.Tokens.Store.{World, M, continue, install, prune_locked, enter}

-- The invariant of a store: its records are linked, stand under their own digests, and are no deeper
-- than the options allow.
pub record IsValid (s : Store) : Type 0 where
  pub linked : IsLinked s.records
  pub named : (h : Bytes) (r : TokenRecord) → lookup h s.records ≡ some r → r.hash ≡ h
  pub deep :
      (h : Bytes) (r : TokenRecord)
      → lookup h s.records ≡ some r
      → r.depth ≤ s.opts.max_delegation_depth

abbrev pub Ends {ℓ} :
    {A : Type 0} → (A → Store → Type ℓ) → (Store → Type ℓ) → Store × Result StoreError A → Type ℓ
Ends Q E (s, ok a) = Q a s
Ends Q E (s, err e) = E s

module _ {A : Type 0} (Q : A → Store → Type 0) (E : Store → Type 0) where
  pub Ends-continue :
      {B : Type 0} (P : B → Store → Type 0) (f : B → M A) (o : Store × Result StoreError B)
      → Ends P E o
      → ((b : B) (s : Store) → P b s → Ends Q E (f b s))
      → Ends Q E (continue f o)
  unfolding continue
  Ends-continue P f (s, ok b) h g = g b s h
  Ends-continue P f (s, err e) h g = h

  -- A step that reads the state or fails: it leaves the state as it is.
  pub Ends-lift :
      {B : Type 0} (r : Result StoreError B) (f : B → M A) (s : Store)
      → E s
      → ((b : B) → r ≡ ok b → Ends Q E (f b s))
      → Ends Q E (continue f (s, r))
  unfolding continue
  Ends-lift (ok b) f s e g = g b refl
  Ends-lift (err x) f s e g = e

  pub Ends-gets :
      {B : Type 0} (b : B) (f : B → M A) (s : Store)
      → Ends Q E (f b s)
      → Ends Q E (continue f (s, ok b))
  unfolding continue
  Ends-gets b f s e = e

pub Ends-map :
    {A : Type 0} (P Q : A → Store → Type 0) (E : Store → Type 0) (o : Store × Result StoreError A)
    → Ends P E o
    → ((a : A) (s : Store) → P a s → Q a s)
    → Ends Q E o
Ends-map P Q E (s, ok a) h f = f a s h
Ends-map P Q E (s, err e) h f = h

pub Ends-weaken :
    {A : Type 0} (P Q : A → Store → Type 0) (E F : Store → Type 0) (o : Store × Result StoreError A)
    → Ends P E o
    → ((a : A) (s : Store) → P a s → Q a s)
    → ((s : Store) → E s → F s)
    → Ends Q F o
Ends-weaken P Q E F (s, ok a) h f g = f a s h
Ends-weaken P Q E F (s, err e) h f g = g s h

abbrev pub with_records : Store → Records → Store
with_records s m = record s { records = m }

-- `install` leaves the new records if it reports no error, and on an error the new or the old.
pub install-Ends :
    (Q : Unit {0} → Store → Type 0) (E : Store → Type 0) (next : Records) (p : Bool × Checked)
    (s : Store)
    → (p.1 ≡ ok tt → p.0 ≡ true)
    → Q tt (with_records s next)
    → E s
    → E (with_records s next)
    → Ends Q E (install next p s)
unfolding install
install-Ends Q E next (true, ok tt) s c q e e' = q
install-Ends Q E next (true, err x) s c q e e' = e'
install-Ends Q E next (false, ok tt) s c q e e' = absurd (let x = c refl in ground arith)
install-Ends Q E next (false, err x) s c q e e' = e

-- The store after its lapsed records were dropped.
pub record AfterPrune (s : Store) (now : ℕ) (s' : Store) : Type 0 where
  pub valid : IsValid s'
  pub opts : s'.opts ≡ s.opts
  pub pruned : Pruned s.records now s'.records

Pruned-IsValid :
    (s : Store) (now : ℕ) (m : Records)
    → IsValid s
    → Pruned s.records now m
    → IsMap m
    → IsValid (with_records s m)
Pruned-IsValid s now m valid p keys = record {
  linked = Pruned-IsLinked s.records m now valid.linked p keys;
  named = λ h r e. valid.named h r (kept_from s.records m now valid.linked p h r e).0;
  deep = λ h r e. valid.deep h r (kept_from s.records m now valid.linked p h r e).0;
}

-- What a failed operation leaves: a valid store under the same options.
pub record StillValid (o : Options) (s : Store) : Type 0 where
  pub valid : IsValid s
  pub opts : s.opts ≡ o

unchanged-AfterPrune :
    (s : Store) (now : ℕ) (m : Records)
    → m ≡ s.records
    → IsValid s
    → Pruned s.records now m
    → AfterPrune s now s
unchanged-AfterPrune s now m same v p = record {
  valid = v;
  opts = refl;
  pruned = subst (Pruned s.records now) same p;
}

-- Dropping the lapsed records keeps the store valid, on an error of the disk too.
pub prune_locked-Ends :
    (w : World) (s : Store)
    → IsValid s
    → Ends (λ _ s'. AfterPrune s w.now s') (StillValid s.opts) (prune_locked w s)
unfolding prune_locked continue
prune_locked-Ends w s valid =
    let (m, changed, e, p, keys, same) = prune_inactive-Pruned s.records w.now valid.linked.keys in
    let v = Pruned-IsValid s w.now m valid p keys in
    let kept : StillValid s.opts s = record { valid = valid; opts = refl } in
    rw e (elim (Bool-cases changed) [
      | inl c ↦ rw c (
          install-Ends (λ _ s'. AfterPrune s w.now s') (StillValid s.opts) m
            (persist w.prune_disk s.opts w.encode m) s
            (persist-committed w.prune_disk s.opts w.encode m)
            (record { valid = v; opts = refl; pruned = p }) kept
            (record { valid = v; opts = refl }))
      | inr c ↦ rw c (unchanged-AfterPrune s w.now m (same c) valid p)
    ])

pub enter-Ends :
    (Q : Unit {0} → Store → Type 0) (E : Store → Type 0) (w : World) (look : ℕ) (s : Store)
    → E s
    → Q tt s
    → Ends Q E (enter w look s)
unfolding enter
enter-Ends Q E w look s e q =
    Ends-gets Q E s.closed _ s
      (Ends-lift Q E (reject s.closed store_closed) _ s e (λ b h. last (w.context_error look)))
  where
    last : (o : Option StoreError) → Ends Q E (s, check o)
    last none = q
    last (some x) = e
