-- ===== src/Gateway/Filter/Failure.antt =====
-- The failure function of the pattern, and one step of a match.
use forcefield.Base.{
  ◌≢◌, Bool-cases, ◌==◌, not, take, ◌&&◌, ltb, drop, ◌⊎◌, get_or, length, List, Bytes, ℕ, zero, suc,
  false, refl, sym, ap, subst, [], ◌∷◌, ◌++◌, ◌∙◌, ◌≡◌, inl, inr, arith, ◌+◌, ◌≤◌, ◌<◌, ◌-◌,
}
use forcefield.Gateway.Filter.{advance_match, fall_back}
use forcefield.Gateway.Filter.Suffix.{
  Ends-zero, Ends-snoc, snoc-Ends, Ends-shorter, Ends, Ends-Ends,
}

module _ (p : Bytes) where
  -- `m` is the longest proper prefix of the pattern that stands at the end of the text.
  pub record Longest (v : Bytes) (m : ℕ) : Type 0 where
    pub proper : m < length p
    pub ends : Ends p m v
    pub most : (k : ℕ) → k < length p → Ends p k v → k ≤ m

  -- The entries below `index` are right: each is the longest border of its prefix.
  abbrev pub Fails : List ℕ → ℕ → Type 0
  Fails failure index =
      (m : ℕ)
      → 0 < m
      → m ≤ index
      → (get_or failure (m - 1) 0 < m)
        × Ends p (get_or failure (m - 1) 0) (drop 1 (take m p))
        × ((k : ℕ) → k < m → Ends p k (drop 1 (take m p)) → k ≤ get_or failure (m - 1) 0)

  -- Where the loop stops: the longest match that the byte extends, or no match.
  record Fallen (v : Bytes) (c m : ℕ) : Type 0 where
    pub proper : m < length p
    pub ends : Ends p m v
    pub most : (k : ℕ) → k < length p → Ends p k v → get_or p k 0 ≡ c → k ≤ m
    pub stops : (m ≡ 0) ⊎ (c ≡ get_or p m 0)

  fall_back-Fallen :
      (failure : List ℕ) (v : Bytes) (c fuel m : ℕ)
      → m ≤ fuel
      → m < length p
      → Fails failure m
      → Ends p m v
      → ((k : ℕ) → k < length p → Ends p k v → get_or p k 0 ≡ c → k ≤ m)
      → Fallen v c (fall_back p failure fuel c m)
  unfolding fall_back
  fall_back-Fallen failure v c zero m h l f e most = record {
    proper = l;
    ends = e;
    most = most;
    stops = inl (omega arith);
  }
  fall_back-Fallen failure v c (suc fuel) m h l f e most =
      elim (Bool-cases (ltb 0 m && not (c == get_or p m 0))) [
        | inr stop ↦ rw stop record { proper = l; ends = e; most = most; stops = stopped m stop }
        | inl go ↦ rw go (
            let positive : 0 < m = ground arith in
            let differs : c ≡ get_or p m 0 → ⊥ = λ z. ground arith in
            let (less, border, best) = f m positive (omega arith) in
            let n = get_or failure (m - 1) 0 in
            fall_back-Fallen failure v c fuel n (omega arith) (omega arith)
              (λ i a b. f i a (omega arith)) (Ends-shorter p n m v less (omega arith) border e)
              (λ k a b g.
                let smaller : k < m =
                  strictly k m (most k a b g) (λ z. differs (sym g ∙ ap (λ i. get_or p i 0) z)) in
                best k smaller (Ends-Ends p k m v smaller (omega arith) b e)))
      ]
    where
      stopped : (m : ℕ) → ltb 0 m && not (c == get_or p m 0) ≡ false → (m ≡ 0) ⊎ (c ≡ get_or p m 0)
      stopped zero s = inl refl
      stopped (suc m) s = inr (ground arith)

      strictly : (k m : ℕ) → k ≤ m → k ≢ m → k < m
      strictly k m a b = ground arith

  -- One byte more: the longest prefix of the pattern, itself included, at the end of the text.
  pub record Advanced (v : Bytes) (g : ℕ) : Type 0 where
    pub bounded : g ≤ length p
    pub ends : Ends p g v
    pub most : (k : ℕ) → k ≤ length p → Ends p k v → k ≤ g

  pub advance_match-Advanced :
      (failure : List ℕ) (v : Bytes) (c m : ℕ)
      → Fails failure m
      → Longest v m
      → Advanced (v ++ c ∷ []) (advance_match p failure c m)
  unfolding advance_match
  advance_match-Advanced failure v c m f l =
      let n = fall_back p failure m c m in
      let fallen =
        fall_back-Fallen failure v c m m (omega arith) l.proper f l.ends
          (λ k a b _. l.most k a b) in
      let small = fallen.proper in
      elim (Bool-cases (c == get_or p n 0)) [
        | inl same ↦ rw same record {
          bounded = omega arith;
          ends =
              subst (λ k. Ends p k (v ++ c ∷ [])) (add_one n)
                (Ends-snoc p n c v small (ground arith) fallen.ends);
          most = λ k b e. grown fallen k b e;
        }
        | inr other ↦ rw other record {
          bounded = omega arith;
          ends =
              subst (λ k. Ends p k (v ++ c ∷ [])) (sym (none_left fallen other))
                (Ends-zero p (v ++ c ∷ []));
          most = λ k b e. nothing fallen other k b e;
        }
      ]
    where
      grown : {n : ℕ} → Fallen v c n → (k : ℕ) → k ≤ length p → Ends p k (v ++ c ∷ []) → k ≤ n + 1
      grown fallen zero b e = omega arith
      grown fallen (suc k) b e =
          let (x, y) = snoc-Ends p k c v (omega arith) e in
          let z = fallen.most k (omega arith) x y in omega arith

      none_left : {n : ℕ} → Fallen v c n → (c == get_or p n 0) ≡ false → n ≡ 0
      none_left fallen other = elim fallen.stops [ inl z ↦ z | inr z ↦ absurd (ground arith) ]

      nothing :
          {n : ℕ}
          → Fallen v c n
          → (c == get_or p n 0) ≡ false
          → (k : ℕ) → k ≤ length p
          → Ends p k (v ++ c ∷ [])
          → k ≤ n
      nothing fallen other zero b e = omega arith
      nothing {n = n} fallen other (suc k) b e =
          let (x, y) = snoc-Ends p k c v (omega arith) e in
          let z = fallen.most k (omega arith) x y in
          let first : n ≡ 0 = none_left fallen other in
          let at : k ≡ n = omega arith in absurd (let w = ap (λ i. get_or p i 0) at in ground arith)

      add_one : (n : ℕ) → suc n ≡ n + 1
      add_one n = omega arith
