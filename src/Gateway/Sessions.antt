-- ===== src/Gateway/Sessions.antt =====
-- internal/gateway/ssh_concurrency.go: how many SSH sessions are open, of each token and workload.
pub mod Counts
use forcefield.Base.{
  Option, leb, ◌++◌, false, ◌∷◌, ◌==◌, ◌||◌, true, if◌then◌else◌, ◌+◌, Bool, ◌-◌, ◌≡◌, delete,
  Bytes, bytes_eq, Map, lookup, [], put, List, ℕ, none, some,
}

abbrev pub max_sessions : ℕ
max_sessions = 128

abbrev pub max_sessions_per_token : ℕ
max_sessions_per_token = 8

abbrev pub max_sessions_per_workload : ℕ
max_sessions_per_workload = 16

pub record SshConcurrency : Type 0 where
  pub total : ℕ
  pub by_token : Map ℕ
  pub by_workload : Map ℕ

abbrev or_zero : Option ℕ → ℕ
or_zero none = 0
or_zero (some n) = n

-- `m[key]`: 0 for a key that is missing.
unfoldable pub count_at : Bytes → Map ℕ → ℕ
unfolding lookup
count_at k m = or_zero (lookup k m)

-- `m[key]++`
unfoldable pub increase : Bytes → Map ℕ → Map ℕ
unfolding count_at put
increase k m = put k (count_at k m + 1) m

-- `m[key]--`, and the entry is deleted at 0. The model's 0 - 1 is 0.
unfoldable pub decrease : Bytes → Map ℕ → Map ℕ
unfolding count_at put delete
decrease k m =
    let less = put k (count_at k m - 1) m in if count_at k m - 1 == 0 then delete k less else less

-- The manager after the call and whether the session was admitted; the source's second result is
-- the closure that calls `release` with the same keys.
unfoldable pub acquire : Bytes → Bytes → SshConcurrency → SshConcurrency × Bool
unfolding count_at increase bytes_eq
acquire token workload m =
    if bytes_eq token [] || bytes_eq workload []
    then (m, false)
    else if leb max_sessions m.total
        || leb max_sessions_per_token (count_at token m.by_token)
        || leb max_sessions_per_workload (count_at workload m.by_workload)
    then (m, false)
    else (
      record {
        total = m.total + 1;
        by_token = increase token m.by_token;
        by_workload = increase workload m.by_workload;
      },
      true,
    )

unfoldable pub release : Bytes → Bytes → SshConcurrency → SshConcurrency
unfolding decrease
release token workload m = record {
  total = m.total - 1;
  by_token = decrease token m.by_token;
  by_workload = decrease workload m.by_workload;
}

abbrev pub new_manager : SshConcurrency
new_manager = record { total = 0; by_token = []; by_workload = [] }

abbrev pub Session : Type 0
Session = Bytes × Bytes

-- The managers that calls lead to, with the sessions that are open: a session is any that is open
-- when it is released, so that it is released once.
pub data Reachable : SshConcurrency → List Session → Type 0 where
  start : Reachable new_manager []
  acquired :
      {m : SshConcurrency} {open_sessions : List Session}
      → Reachable m open_sessions
      → (token workload : Bytes) → (acquire token workload m).1 ≡ true
      → Reachable (acquire token workload m).0 ((token, workload) ∷ open_sessions)
  rejected :
      {m : SshConcurrency} {open_sessions : List Session}
      → Reachable m open_sessions
      → (token workload : Bytes) → (acquire token workload m).1 ≡ false
      → Reachable (acquire token workload m).0 open_sessions
  released :
      {m : SshConcurrency} (before : List Session) (token workload : Bytes) (after : List Session)
      → Reachable m (before ++ (token, workload) ∷ after)
      → Reachable (release token workload m) (before ++ after)
