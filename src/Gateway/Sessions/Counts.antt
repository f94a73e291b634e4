-- ===== src/Gateway/Sessions/Counts.antt =====
-- The manager counts the sessions that are open, and these stay within the bounds.
use forcefield.Gateway.Sessions.{
  release, acquire, Reachable, max_sessions_per_workload, max_sessions_per_token, max_sessions,
  increase, SshConcurrency, count_at, Session, decrease, start, acquired, rejected, released,
}
use forcefield.Base.{
  leb, ◌||◌, ◌<◌, Bool, ◌∙◌, ◌==◌, bytes_eq_iff, lookup-put, lookup-delete, subst, delete, put,
  Bool-cases, ◌-◌, suc, arith, ◌+◌, Map, ◌≤◌, ◌++◌, ◌≡◌, length, Bytes, List, bytes_eq, ℕ, refl, [],
  ◌∷◌, if◌then◌else◌, inl, inr, true, false,
}

-- How many of the sessions have this token, or this workload.
unfoldable pub opened : (Session → Bytes) → Bytes → List Session → ℕ
unfolding bytes_eq
opened pick k [] = 0
opened pick k (s ∷ ss) = (if bytes_eq (pick s) k then 1 else 0) + opened pick k ss

pub record Counted (m : SshConcurrency) (open_sessions : List Session) : Type 0 where
  pub total : m.total ≡ length open_sessions
  pub tokens : (k : Bytes) → count_at k m.by_token ≡ opened (λ s. s.0) k open_sessions
  pub workloads : (k : Bytes) → count_at k m.by_workload ≡ opened (λ s. s.1) k open_sessions
  pub few : length open_sessions ≤ max_sessions
  pub few_per_token : (k : Bytes) → opened (λ s. s.0) k open_sessions ≤ max_sessions_per_token
  pub few_per_workload : (k : Bytes) → opened (λ s. s.1) k open_sessions ≤ max_sessions_per_workload

opened-insert :
    (pick : Session → Bytes) (k : Bytes) (before : List Session) (s : Session)
    (after : List Session)
    → opened pick k (before ++ s ∷ after)
      ≡ opened pick k (before ++ after) + (if bytes_eq (pick s) k then 1 else 0)
unfolding opened
opened-insert pick k [] s after = omega arith
opened-insert pick k (b ∷ before) s after = omega (arith, opened-insert pick k before s after)

length-insert :
    (before : List Session) (s : Session) (after : List Session)
    → length (before ++ s ∷ after) ≡ suc (length (before ++ after))
length-insert [] s after = refl
length-insert (b ∷ before) s after = omega (arith, length-insert before s after)

count_at-put :
    (k j : Bytes) (n : ℕ) (m : Map ℕ)
    → count_at j (put k n m) ≡ (if bytes_eq k j then n else count_at j m)
unfolding count_at
count_at-put k j n m = elim (Bool-cases (bytes_eq k j)) [
  | inl e ↦ rw (lookup-put k j n m, e) refl
  | inr e ↦ rw (lookup-put k j n m, e) refl
]

count_at-delete :
    (k j : Bytes) (m : Map ℕ) → count_at j (delete k m) ≡ (if bytes_eq k j then 0 else count_at j m)
unfolding count_at
count_at-delete k j m = elim (Bool-cases (bytes_eq k j)) [
  | inl e ↦ rw (lookup-delete k j m, e) refl
  | inr e ↦ rw (lookup-delete k j m, e) refl
]

count_at-increase :
    (k j : Bytes) (m : Map ℕ)
    → count_at j (increase k m) ≡ count_at j m + (if bytes_eq k j then 1 else 0)
unfolding increase
count_at-increase k j m = elim (Bool-cases (bytes_eq k j)) [
  | inl e ↦
      let same = subst (λ t. count_at k m ≡ count_at t m) ((bytes_eq_iff k j).0 e) refl in
      rw (count_at-put k j (count_at k m + 1) m, e) (omega (arith, same))
  | inr e ↦ rw (count_at-put k j (count_at k m + 1) m, e) (omega arith)
]

count_at-decrease :
    (k j : Bytes) (m : Map ℕ)
    → count_at j (decrease k m) ≡ count_at j m - (if bytes_eq k j then 1 else 0)
unfolding decrease
count_at-decrease k j m =
    let less = put k (count_at k m - 1) m in
    let put_eq = count_at-put k j (count_at k m - 1) m in
    let same : bytes_eq k j ≡ true → count_at k m ≡ count_at j m =
      λ e. subst (λ t. count_at k m ≡ count_at t m) ((bytes_eq_iff k j).0 e) refl in
    elim (Bool-cases (count_at k m - 1 == 0)) [
      | inl z ↦ rw z (elim (Bool-cases (bytes_eq k j)) [
        | inl e ↦ rw (count_at-delete k j less, e) (let s = same e in ground arith)
        | inr e ↦ rw (count_at-delete k j less, put_eq, e) (omega arith)
      ])
      | inr z ↦ rw z (elim (Bool-cases (bytes_eq k j)) [
        | inl e ↦ rw (put_eq, e) (let s = same e in omega arith)
        | inr e ↦ rw (put_eq, e) (omega arith)
      ])
    ]

acquire-Counted :
    (m : SshConcurrency) (open_sessions : List Session) (token workload : Bytes)
    → Counted m open_sessions
    → Counted
        (acquire token workload m).0
        (if (acquire token workload m).1 then (token, workload) ∷ open_sessions else open_sessions)
unfolding acquire opened
acquire-Counted m ss token workload h =
    elim (Bool-cases (bytes_eq token [] || bytes_eq workload [])) [
      | inl e ↦ rw e h
      | inr e ↦
          elim (Bool-cases (
            leb max_sessions m.total
            || leb max_sessions_per_token (count_at token m.by_token)
            || leb max_sessions_per_workload (count_at workload m.by_workload))) [
              | inl f ↦ rw (e, f) h
              | inr f ↦
                  rw (e, f)
                    record {
                      total = let t = h.total in omega arith;
                      tokens = λ k.
                          count_at-increase token k m.by_token
                          ∙ (let t = h.tokens k in omega arith);
                      workloads = λ k.
                          count_at-increase workload k m.by_workload
                          ∙ (let t = h.workloads k in omega arith);
                      few = let t = h.total in ground arith;
                      few_per_token = λ k.
                          within_cap (bytes_eq token k) (h.few_per_token k) (λ same.
                            subst (λ t. opened (λ s. s.0) t ss < max_sessions_per_token)
                              ((bytes_eq_iff token k).0 same)
                              (let t = h.tokens token in ground arith));
                      few_per_workload = λ k.
                          within_cap (bytes_eq workload k) (h.few_per_workload k) (λ same.
                            subst (λ t. opened (λ s. s.1) t ss < max_sessions_per_workload)
                              ((bytes_eq_iff workload k).0 same)
                              (let t = h.workloads workload in ground arith));
                    }
            ]
    ]
  where
    within_cap :
        {n cap : ℕ} (b : Bool) → n ≤ cap → (b ≡ true → n < cap) → (if b then 1 else 0) + n ≤ cap
    within_cap true l f = let z = f refl in omega arith
    within_cap false l f = omega arith

release-Counted :
    (m : SshConcurrency) (before : List Session) (token workload : Bytes) (after : List Session)
    → Counted m (before ++ (token, workload) ∷ after)
    → Counted (release token workload m) (before ++ after)
unfolding release
release-Counted m before token workload after h =
    let s : Session = (token, workload) in
    let l = length-insert before s after in
    let o = λ (k : Bytes). opened-insert (λ s. s.0) k before s after in
    let p = λ (k : Bytes). opened-insert (λ s. s.1) k before s after in
    record {
      total = let t = h.total in omega (arith, l);
      tokens =
          λ k. count_at-decrease token k m.by_token ∙ (let t = h.tokens k in omega (arith, o k));
      workloads = λ k.
          count_at-decrease workload k m.by_workload
          ∙ (let t = h.workloads k in omega (arith, p k));
      few = let t = h.few in omega (arith, l);
      few_per_token = λ k. let t = h.few_per_token k in omega (arith, o k);
      few_per_workload = λ k. let t = h.few_per_workload k in omega (arith, p k);
    }

-- However sessions are acquired, rejected and released, each once: the manager's counts are those
-- of the open sessions, of each token and of each workload, and at most 128 are open, at most 8 of
-- one token and at most 16 of one workload.
pub Reachable-Counted :
    (m : SshConcurrency) (open_sessions : List Session)
    → Reachable m open_sessions
    → Counted m open_sessions
unfolding opened count_at
Reachable-Counted _ _ start = record {
  total = refl;
  tokens = λ k. refl;
  workloads = λ k. refl;
  few = omega arith;
  few_per_token = λ k. omega arith;
  few_per_workload = λ k. omega arith;
}
Reachable-Counted _ _ (acquired {m = m} {open_sessions = ss} r token workload e) =
    subst (λ b. Counted (acquire token workload m).0 (if b then (token, workload) ∷ ss else ss)) e
      (acquire-Counted m ss token workload (Reachable-Counted m ss r))
Reachable-Counted _ _ (rejected {m = m} {open_sessions = ss} r token workload e) =
    subst (λ b. Counted (acquire token workload m).0 (if b then (token, workload) ∷ ss else ss)) e
      (acquire-Counted m ss token workload (Reachable-Counted m ss r))
Reachable-Counted _ _ (released {m = m} before token workload after r) =
    release-Counted m before token workload after (Reachable-Counted m _ r)
