-- ===== src/Gateway/Tests.antt =====
-- Tests of the limits and instances of their theorems.
use forcefield.Base.{
  ltb, ◌*◌, ◌-◌, if◌then◌else◌, ◌+◌, arith, ◌≡◌, bytes, ◌/◌, List, ℕ, refl, [], ◌∷◌, true, false,
}
use forcefield.Tokens.Types.{Limits}
use forcefield.Gateway.Limit.{
  LimitScope, sweep_locked, LimitManager, allow_request, allow_bytes, Float,
}
use forcefield.Gateway.Limit.View.{IsWithin, viewed}
use forcefield.Gateway.Limit.Charges.{Charged}
use forcefield.Gateway.Limit.Requests.{allow_request-Charged}
use forcefield.Gateway.Limit.Sent.{allow_bytes-Charged}
use forcefield.Gateway.Sessions.{
  start, acquired, new_manager, Reachable, SshConcurrency, acquire, release,
}
use forcefield.Gateway.Sessions.Counts.{Reachable-Counted, Counted}

-- Whole tokens: enough for a test.
abbrev whole : Float
whole = record {
  F = ℕ;
  of_uint = λ n. n;
  seconds = λ n. n / 1000000000;
  plus = λ a b. a + b;
  minus = λ a b. a - b;
  times = λ a b. a * b;
  less = ltb;
}

abbrev budget : Limits
budget = record {
  requests_per_second = 0;
  burst = 0;
  request_budget = 2;
  byte_budget = 100;
  max_request_bytes = 0;
}

abbrev root_scope : LimitScope
root_scope = record { key = bytes "root"; limits = budget; expires_at = 1000 }

abbrev child_scope : LimitScope
child_scope = record { key = bytes "child"; limits = budget; expires_at = 500 }

abbrev idle : LimitManager whole
idle = record { states = []; next_sweep = 0 }

idle-IsWithin : IsWithin whole idle.states
unfolding viewed
idle-IsWithin = record { map = tt; within = λ k u e. absurd (ground arith) }

abbrev chain_of_two : List LimitScope
chain_of_two = child_scope ∷ []

allow_request-Charged_example :
    let r = allow_request whole 10 (root_scope ∷ chain_of_two) idle in
    IsWithin whole r.0.states
    × Charged whole
        (if r.1 then 1 else 0)
        0
        (root_scope ∷ chain_of_two)
        (sweep_locked whole 10 idle).states
        r.0.states
allow_request-Charged_example =
    allow_request-Charged whole 10 root_scope chain_of_two idle idle-IsWithin

allow_bytes-Charged_example :
    let r = allow_bytes whole 10 (root_scope ∷ chain_of_two) 60 idle in
    IsWithin whole r.0.states
    × Charged whole 0
        (if r.1 then 60 else 0)
        (root_scope ∷ chain_of_two)
        (sweep_locked whole 10 idle).states
        r.0.states
allow_bytes-Charged_example =
    allow_bytes-Charged whole 10 root_scope chain_of_two 60 idle idle-IsWithin

-- The second charge of 60 bytes is over the budget of 100.
bytes_test :
    let once = (allow_bytes whole 10 (root_scope ∷ chain_of_two) 60 idle).0 in
    (allow_bytes whole 10 (root_scope ∷ []) 60 once).1 ≡ false
unfolding allow_bytes
bytes_test = refl

requests_test : (allow_request whole 10 (root_scope ∷ chain_of_two) idle).1 ≡ true
unfolding allow_request
requests_test = refl

abbrev one_session : SshConcurrency
one_session = (acquire (bytes "token") (bytes "vm") new_manager).0

one_session-Reachable : Reachable one_session ((bytes "token", bytes "vm") ∷ [])
unfolding acquire
one_session-Reachable = acquired start (bytes "token") (bytes "vm") refl

Reachable-Counted_example : Counted one_session ((bytes "token", bytes "vm") ∷ [])
Reachable-Counted_example =
    Reachable-Counted one_session ((bytes "token", bytes "vm") ∷ []) one_session-Reachable

released_test : release (bytes "token") (bytes "vm") one_session ≡ new_manager
unfolding release acquire
released_test = refl
