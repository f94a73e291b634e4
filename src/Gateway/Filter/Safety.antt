-- ===== src/Gateway/Filter/Safety.antt =====
use forcefield.Base.{
  List, drop, leb→le, leb, Option-cases, length-append, ◌+◌, append-nil, ap, ◌-◌, ◌∙◌, false,
  contains, sym, suc, inr, inl, take, ◌<◌, arith, ℕ, Bool-cases, subst, ◌⊎◌, ◌∷◌, ◌≤◌, refl, some,
  [], length, none, append_assoc, ◌≡◌, ◌≢◌, ◌++◌, Bytes, Option,
}
use forcefield.Gateway.Filter.{
  read, eof, after, new_secret_filtering_body, Reply, drain, suffix_prefix_overlap, held, not_empty,
  prefix_failure, ReadError, Chunk, FilteringBody, absorb,
}
use forcefield.Gateway.Filter.Contains.{contains-Occurs, Occurs-contains, Occurs}
use forcefield.Gateway.Filter.Overlap.{suffix_prefix_overlap-Longest}
use forcefield.Gateway.Filter.Suffix.{take-drop, length-take}
use forcefield.Gateway.Filter.Reads.{
  read-Ending, given, over, reflected, answered, refused, idle, ended, Ending, fetched, Fetch,
}

-- No byte of the secret's occurrences is relayed.

-- The bytes that the source may still give.
abbrev Open : Option ReadError → Bytes → Type 0
Open terminal future = terminal ≢ none → future ≡ []

-- Of the text, what was relayed and what is pending, every occurrence of the secret, also one that
-- later bytes complete, begins behind what was relayed.
record Kept (p o : Bytes) (b : FilteringBody) : Type 0 where
  pub same : b.secret ≡ p
  pub table : b.failure ≡ prefix_failure p
  pub ahead :
      (future : Bytes)
      → Open b.terminal future
      → (u : Bytes) → Occurs p u ((o ++ b.pending) ++ future)
      → length o ≤ length u

joined :
    (o pending chunk future : Bytes)
    → (o ++ (pending ++ chunk)) ++ future ≡ (o ++ pending) ++ (chunk ++ future)
joined o pending chunk future = simp append_assoc refl

absorb-Kept :
    (p o : Bytes) (chunk : Chunk) (b : FilteringBody)
    → b.terminal ≡ none
    → Kept p o b
    → Kept p o (absorb chunk b)
unfolding absorb
absorb-Kept p o (chunk, some e) b t k = record {
  same = k.same;
  table = k.table;
  ahead = λ future _ u h.
      k.ahead (chunk ++ future) (λ q. absurd (q t)) u
        (subst (λ x. Occurs p u x) (joined o b.pending chunk future) h);
}
absorb-Kept p o (chunk, none) b t k = elim (Bool-cases (not_empty chunk)) [
  | inl y ↦ rw y record {
    same = k.same;
    table = k.table;
    ahead = λ future _ u h.
        k.ahead (chunk ++ future) (λ q. absurd (q t)) u
          (subst (λ x. Occurs p u x) (joined o b.pending chunk future) h);
  }
  | inr n ↦ rw n record {
    same = k.same;
    table = k.table;
    ahead = λ future _ u h. k.ahead future (λ q. absurd (q t)) u h;
  }
]

-- A text that begins with another, by the length.
split_at :
    (o u rest : Bytes) (s : Bytes)
    → u ++ rest ≡ o ++ s
    → length o ≤ length u
    → (x : Bytes) × (u ≡ o ++ x) × (x ++ rest ≡ s)
split_at [] u rest s e h = (u, refl, e)
split_at (c ∷ o) [] rest s e h = absurd (omega arith)
split_at (c ∷ o) (d ∷ u) rest s e h =
    let (x, f, g) = split_at o u rest s (ground arith) (omega arith) in (x, ground arith, g)

-- An occurrence in a text and more either ends within the text or reaches over its end.
reaches :
    (p x w s future : Bytes)
    → x ++ p ++ w ≡ s ++ future
    → length x ≤ length s
    → Occurs p x s ⊎ ((k : ℕ) × (k < length p) × (x ++ take k p ≡ s))
reaches p [] w s future e h = within p w s future e
  where
    within :
        (p w s future : Bytes)
        → p ++ w ≡ s ++ future
        → ((v : Bytes) × (p ++ v ≡ s)) ⊎ ((k : ℕ) × (k < length p) × (take k p ≡ s))
    within [] w s future e = inl (s, refl)
    within (c ∷ p) w [] future e = inr (0, omega arith, refl)
    within (c ∷ p) w (d ∷ s) future e = elim (within p w s future (ground arith)) [
      | inl (v, f) ↦ inl (v, ground arith)
      | inr (k, l, f) ↦ inr (suc k, omega arith, ground arith)
    ]
reaches p (c ∷ x) w [] future e h = absurd (omega arith)
reaches p (c ∷ x) w (d ∷ s) future e h =
    elim (reaches p x w s future (ground arith) (omega arith)) [
      | inl (v, f) ↦ inl (v, ground arith)
      | inr (k, l, f) ↦ inr (k, l, ground arith)
    ]

module _ (p o : Bytes) (z : 0 < length p) where
  no_occurrence : (b : FilteringBody) → Kept p o b → (u : Bytes) → Occurs p u o → ⊥
  no_occurrence b k u (w, e) =
      let l : length o ≤ length u =
        k.ahead [] (λ q. refl) u (w ++ b.pending, longer (length o) u w b e) in
      absurd (omega (arith, ap length e, length-append (u ++ p) w, length-append u p))
    where
      longer :
          (n : ℕ) (u w : Bytes) (b : FilteringBody)
          → u ++ p ++ w ≡ o
          → u ++ p ++ (w ++ b.pending) ≡ (o ++ b.pending) ++ []
      longer n u w b e =
          sym (append_assoc (u ++ p) w b.pending)
          ∙ ap (λ t. t ++ b.pending) e
          ∙ sym (append-nil (o ++ b.pending))

  given-ahead :
      (b : FilteringBody) (n : ℕ) (future : Bytes)
      → Kept p o b
      → contains b.pending p ≡ false
      → n ≤ length b.pending - held b
      → Open b.terminal future
      → (u : Bytes) → Occurs p u ((o ++ b.pending) ++ future)
      → length o + n ≤ length u
  given-ahead b n future k c h q u (w, e) =
      let l = k.ahead future q u (w, e) in
      let (x, f, g) =
        split_at o u (p ++ w) (b.pending ++ future)
          (sym (append_assoc u p w) ∙ e ∙ append_assoc o b.pending future) l in
      let size : length u ≡ length o + length x = omega (arith, ap length f, length-append o x) in
      elim (Bool-cases (leb (length b.pending) (length x))) [
        | inl far ↦ omega (arith, leb→le (length b.pending) (length x) far)
        | inr near ↦
            let close : length x ≤ length b.pending = ground arith in
            elim (reaches p x w b.pending future (append_assoc x p w ∙ g) (omega arith)) [
              | inl v ↦ absurd (let y = Occurs-contains p x b.pending v in ground arith)
              | inr (m, s, r) ↦
                  let ends : length x + m ≡ length b.pending = omega (
                    arith,
                    ap length r,
                    length-append x (take m p),
                    length-take m p (omega arith),
                  ) in
                  let bound : m ≤ held b = held_bound b future k q m x w s r g in
                  omega (arith, ends)
            ]
      ]
    where
      held_bound :
          (b : FilteringBody) (future : Bytes)
          → Kept p o b
          → Open b.terminal future
          → (m : ℕ) (x w : Bytes) → m < length p
          → x ++ take m p ≡ b.pending
          → x ++ (p ++ w) ≡ b.pending ++ future
          → m ≤ held b
      held_bound b future k q m x w s r g = elim (Option-cases b.terminal) [
        | inl t ↦
            let best = suffix_prefix_overlap-Longest p b.pending z in
            let m_le = best.most m s (x, r) in
            let is : held b ≡ suffix_prefix_overlap b.pending p (prefix_failure p) =
              unfold held in rw (t, held) (simp (k.same, k.table) refl) in
            omega (arith, is, m_le)
        | inr (e, t) ↦
            let empty = q (λ n. absurd (ground arith)) in
            absurd (
              omega (
                arith,
                ap length empty,
                ap length r,
                ap length g,
                length-append x (take m p),
                length-take m p (omega arith),
                length-append x (p ++ w),
                length-append p w,
                length-append b.pending future,
              ))
      ]

  Fetch-Kept : (b c : FilteringBody) → b.terminal ≡ none → Fetch b c → Kept p o b → Kept p o c
  Fetch-Kept b _ t (fetched chunk source _ e) k =
      absorb-Kept p o chunk (record b { source = source }) t
        record { same = k.same; table = k.table; ahead = k.ahead }
  Fetch-Kept b _ t (ended _ e) k = absorb-Kept p o ([], some eof) b t k

  given-Kept :
      (b : FilteringBody) (n : ℕ)
      → Kept p o b
      → contains b.pending b.secret ≡ false
      → n ≤ length b.pending - held b
      → Kept p (o ++ take n b.pending) (record b { pending = drop n b.pending })
  given-Kept b n k c h = record {
    same = k.same;
    table = k.table;
    ahead = λ future q u v.
        let l =
          given-ahead b n future k (subst (λ x. contains b.pending x ≡ false) k.same c) h q u
            (subst (λ x. Occurs p u (x ++ future)) (whole o n b.pending) v) in
        omega (arith, length-append o (take n b.pending), length-take n b.pending (omega arith));
  }
    where
      whole : (o : Bytes) (n : ℕ) (s : Bytes) → (o ++ take n s) ++ drop n s ≡ o ++ s
      whole o n s = append_assoc o (take n s) (drop n s) ∙ ap (λ t. o ++ t) (take-drop n s)

drain-Kept :
    (p : Bytes) (rooms : List ℕ) (o : Bytes) (b : FilteringBody)
    → 0 < length p
    → Kept p o b
    → (u : Bytes) → Occurs p u (o ++ (drain rooms b).0)
    → ⊥
unfolding drain
drain-Kept p [] o b z k u v = no_occurrence p o z b k u (subst (λ t. Occurs p u t) (append-nil o) v)
drain-Kept p (room ∷ rooms) o b z k u v =
    step (read room b)
      (read-Ending (Kept p o) (Fetch-Kept p o z) room b (omega (arith, ap length k.same)) k)
      (λ n c l. drain-Kept p rooms n c z l u) v
  where
    ended_here : (c : FilteringBody) → Kept p o c → Occurs p u (o ++ []) → ⊥
    ended_here c l v = no_occurrence p o z c l u (subst (λ t. Occurs p u t) (append-nil o) v)

    step :
        (r : Reply)
        → Ending (Kept p o) (Fetch-Kept p o z) room b r
        → ((n : Bytes) (c : FilteringBody) → Kept p n c → Occurs p u (n ++ (drain rooms c).0) → ⊥)
        → Occurs p u (o ++ (after r (drain rooms r.0)).0)
        → ⊥
    step r (idle e) ih v = ih o b k v
    step r (refused e) ih v = ended_here b k v
    step r (answered c _ l (reflected y)) ih v = ended_here c l v
    step r (answered c _ l (over e n h t)) ih v = ended_here c l v
    step r (answered c _ l (given n q h i)) ih v =
        let next = record c { pending = drop n c.pending } in
        ih (o ++ take n c.pending) next (given-Kept p o z c n l q i) (
          subst (λ t. Occurs p u t) (sym (append_assoc o (take n c.pending) ((drain rooms next).0)))
            v)

-- Whatever the source gives and however the reader's buffers are cut, the bytes that the reader gets up
-- to the first error do not contain the secret, if the secret is not empty.
pub drain-contains :
    (source : List Chunk) (secret : Bytes) (rooms : List ℕ)
    → 0 < length secret
    → contains ((drain rooms (new_secret_filtering_body source secret)).0) secret ≡ false
drain-contains source secret rooms z = elim (Bool-cases (contains got secret)) [
  | inr n ↦ n
  | inl y ↦
      let (u, v) = contains-Occurs secret got y in
      absurd (drain-Kept secret rooms [] (new_secret_filtering_body source secret) z start u v)
]
  where
    got : Bytes
    got = (drain rooms (new_secret_filtering_body source secret)).0

    start : Kept secret [] (new_secret_filtering_body source secret)
    start =
        unfold new_secret_filtering_body in
        record { same = refl; table = refl; ahead = λ future q u v. omega arith }
