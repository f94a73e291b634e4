-- ===== src/Gateway/Limit.antt =====
-- internal/gateway/limit.go: the limits of a token's delegation chain, charged together.
pub mod View
pub mod Found
pub mod Admitted
pub mod Charges
pub mod Requests
pub mod Sent
use forcefield.Base.{
  member, Option, leb, ◌&&◌, ◌-◌, ◌||◌, false, ltb, [], not, ◌∷◌, ◌==◌, put, true, ◌%◌, retain,
  lookup, if◌then◌else◌, List, Bytes, Bool, bytes_eq, ◌+◌, Map, ℕ, none, some,
}
use forcefield.Tokens.Types.{Limits}

-- `float64`, with `Duration.Seconds`, as the bucket of a rate limit uses it.
pub record Float : Type 1 where
  pub F : Type 0
  pub of_uint : ℕ → F
  pub seconds : ℕ → F
  pub plus : F → F → F
  pub minus : F → F → F
  pub times : F → F → F
  pub less : F → F → Bool

pub record LimitScope : Type 0 where
  pub key : Bytes
  pub limits : Limits
  pub expires_at : ℕ

abbrev pub max_uint64 : ℕ
max_uint64 = 18446744073709551615

-- The longest `time.Duration`, at which `Sub` saturates.
abbrev pub max_duration : ℕ
max_duration = 9223372036854775807

-- `time.Minute`
abbrev pub minute : ℕ
minute = 60000000000

unfoldable pub limits_eq : Limits → Limits → Bool
limits_eq a b =
    a.requests_per_second == b.requests_per_second
    && a.burst == b.burst
    && a.request_budget == b.request_budget
    && a.byte_budget == b.byte_budget
    && a.max_request_bytes == b.max_request_bytes

unfoldable pub effective_burst : Limits → ℕ
effective_burst l = if l.requests_per_second == 0 then 0 else if l.burst == 0 then 1 else l.burst

module _ (float : Float) where
  pub record LimitState : Type 0 where
    pub limits : Limits
    pub expires_at : ℕ
    pub tokens : float.F
    pub last : ℕ
    pub requests : ℕ
    pub bytes : ℕ

  pub record LimitManager : Type 0 where
    pub states : Map LimitState
    pub next_sweep : ℕ

  unfoldable pub refill : ℕ → LimitState → LimitState
  unfolding effective_burst
  refill now s =
      if s.limits.requests_per_second == 0 || not (ltb s.last now)
      then s
      else let gap = if leb (now - s.last) max_duration then now - s.last else max_duration in
        let filled =
          float.plus s.tokens
            (float.times (float.seconds gap) (float.of_uint s.limits.requests_per_second)) in
        let burst = float.of_uint (effective_burst s.limits) in
        record s { tokens = if float.less burst filled then burst else filled; last = now }

  unfoldable pub sweep_locked : ℕ → LimitManager → LimitManager
  unfolding retain
  sweep_locked now m = if not (m.next_sweep == 0) && ltb now m.next_sweep then m else record {
    states = retain (λ key s. ltb now s.expires_at) m.states;
    next_sweep = now + minute;
  }

  unfoldable pub new_state : ℕ → LimitScope → LimitState
  unfolding effective_burst
  new_state now scope = record {
    limits = scope.limits;
    expires_at = scope.expires_at;
    tokens = float.of_uint (effective_burst scope.limits);
    last = now;
    requests = 0;
    bytes = 0;
  }

  unfoldable pub matching_state :
      ℕ → LimitScope → Map LimitState → Option LimitState → Map LimitState × Bool
  unfolding new_state limits_eq put
  matching_state now scope states none = (put scope.key (new_state now scope) states, true)
  matching_state now scope states (some s) =
      (states, limits_eq s.limits scope.limits && s.expires_at == scope.expires_at)

  -- `m.states[scope.key]`, made if it is missing; `false` if its claims are others.
  unfoldable pub state_of : ℕ → LimitScope → Map LimitState → Map LimitState × Bool
  unfolding matching_state lookup
  state_of now scope states = matching_state now scope states (lookup scope.key states)

  -- The loop over the scopes, with the keys `seen` so far. The states it made stay if it fails.
  unfoldable pub states_locked :
      ℕ → List LimitScope → List Bytes → Map LimitState → Map LimitState × Bool
  unfolding state_of bytes_eq member
  states_locked now [] seen states = (states, true)
  states_locked now (scope ∷ scopes) seen states =
      let (made, same) = state_of now scope states in
      let rest = states_locked now scopes (scope.key ∷ seen) made in
      if bytes_eq scope.key [] || scope.expires_at == 0 || not (ltb now scope.expires_at)
      then (states, false)
      else if member scope.key seen
      then (states, false)
      else if not same
      then (made, false)
      else rest

  unfoldable pub write_back :
      Bytes → (LimitState → LimitState) → Map LimitState → Option LimitState → Map LimitState
  unfolding put
  write_back key f states none = states
  write_back key f states (some s) = put key (f s) states

  -- A change through the pointer of a state.
  unfoldable pub adjust : Bytes → (LimitState → LimitState) → Map LimitState → Map LimitState
  unfolding write_back lookup
  adjust key f states = write_back key f states (lookup key states)

  unfoldable pub request_blocked : LimitState → Bool
  request_blocked s =
      s.requests == max_uint64
      || not (s.limits.request_budget == 0) && leb s.limits.request_budget s.requests
      || not (s.limits.requests_per_second == 0) && float.less s.tokens (float.of_uint 1)

  -- The tests of one state, and what follows when it passes them.
  unfoldable pub unless_blocked :
      Option LimitState → Map LimitState → Map LimitState × Bool → Map LimitState × Bool
  unfolding request_blocked
  unless_blocked none filled rest = (filled, false)
  unless_blocked (some s) filled rest = if request_blocked s then (filled, false) else rest

  -- The first loop of `allowRequest`: each state is refilled, then tested.
  unfoldable pub admit_requests : ℕ → List LimitScope → Map LimitState → Map LimitState × Bool
  unfolding refill adjust unless_blocked lookup
  admit_requests now [] states = (states, true)
  admit_requests now (scope ∷ scopes) states =
      let filled = adjust scope.key (refill now) states in
      unless_blocked (lookup scope.key filled) filled (admit_requests now scopes filled)

  unfoldable pub charge_request : LimitState → LimitState
  charge_request s = record s {
    tokens =
        if s.limits.requests_per_second == 0
        then s.tokens
        else float.minus s.tokens (float.of_uint 1);
    requests = (s.requests + 1) % 18446744073709551616;
  }

  unfoldable pub charge_all :
      (LimitState → LimitState) → List LimitScope → Map LimitState → Map LimitState
  unfolding adjust
  charge_all f [] states = states
  charge_all f (scope ∷ scopes) states = charge_all f scopes (adjust scope.key f states)

  unfoldable pub bytes_blocked : ℕ → LimitState → Bool
  bytes_blocked count s =
      ltb (max_uint64 - s.bytes) count
      || not (s.limits.byte_budget == 0)
        && (ltb s.limits.byte_budget s.bytes || ltb (s.limits.byte_budget - s.bytes) count)

  unfoldable pub charge_bytes : ℕ → LimitState → LimitState
  charge_bytes count s = record s { bytes = (s.bytes + count) % 18446744073709551616 }

  -- The tests of one state, and of those that follow.
  unfoldable pub takes_bytes : ℕ → Option LimitState → Bool → Bool
  unfolding bytes_blocked
  takes_bytes count none rest = false
  takes_bytes count (some s) rest = not (bytes_blocked count s) && rest

  -- The first loop of `allowBytes`.
  unfoldable pub admit_bytes : ℕ → List LimitScope → Map LimitState → Bool
  unfolding takes_bytes lookup
  admit_bytes count [] states = true
  admit_bytes count (scope ∷ scopes) states =
      takes_bytes count (lookup scope.key states) (admit_bytes count scopes states)

  abbrev pub empty_scopes : List LimitScope → Bool
  empty_scopes [] = true
  empty_scopes (s ∷ ss) = false

  unfoldable pub allow_request : ℕ → List LimitScope → LimitManager → LimitManager × Bool
  unfolding sweep_locked states_locked admit_requests charge_all charge_request
  allow_request now scopes m =
      let swept = sweep_locked now m in
      let (states, found) = states_locked now scopes [] swept.states in
      let (filled, admitted) = admit_requests now scopes states in
      if empty_scopes scopes
      then (m, false)
      else if not found
      then (record swept { states = states }, false)
      else if not admitted
      then (record swept { states = filled }, false)
      else (record swept { states = charge_all charge_request scopes filled }, true)

  unfoldable pub allow_bytes : ℕ → List LimitScope → ℕ → LimitManager → LimitManager × Bool
  unfolding sweep_locked states_locked admit_bytes charge_all charge_bytes
  allow_bytes now scopes count m =
      let swept = sweep_locked now m in
      let (states, found) = states_locked now scopes [] swept.states in
      if empty_scopes scopes
      then (m, false)
      else if not found || not (admit_bytes count scopes states)
      then (record swept { states = states }, false)
      else (record swept { states = charge_all (charge_bytes count) scopes states }, true)
