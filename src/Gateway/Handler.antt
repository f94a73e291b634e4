-- ===== src/Gateway/Handler.antt =====
-- What the handler of internal/gateway/gateway.go asks of the rest of the system, and its runs. A run
-- is settled by the answers, which may depend on all that happened before.
use forcefield.Base.{refl, ◌≡◌, Option, ℕ, Bool, [], ◌∷◌, none, some, true, false, List, Bytes}
use forcefield.Policy.Evaluate.{Reason}
use forcefield.Tokens.Types.{Claims, ValidationRequest}
use forcefield.Gateway.Limit.{LimitScope}
use forcefield.Gateway.Exchange.{Outbound}

-- internal/audit/audit.go: `Decision`
pub data AuditDecision : Type 0 where
  decision_allow decision_deny decision_error : AuditDecision

-- `audit.Record` without its times; `none` is the empty reason.
pub record AuditRecord : Type 0 where
  pub request_id : Bytes
  pub token_id : Bytes
  pub root_token_id : Bytes
  pub policy_revision : Bytes
  pub rule_id : Bytes
  pub reason : Option Reason
  pub method : Bytes
  pub path_hash : Bytes
  pub workload_id : Bytes
  pub grant_id : Bytes
  pub service : Bytes
  pub decision : AuditDecision
  pub status : ℕ
  pub bytes_in : ℕ
  pub bytes_out : ℕ

-- What `forward` returns from `RoundTrip` on; the status is 0 while nothing was relayed.
pub record Exchanged : Type 0 where
  pub status : ℕ
  pub bytes_out : ℕ
  pub failed : Bool

-- `hand_over` is the call of another adapter's handler, `abort` the panic with `ErrAbortHandler`.
pub data Act : Type 0 where
  resolve_workload : Act
  validate : Bytes → ValidationRequest → Act
  charge_request : List LimitScope → Act
  charge_bytes : List LimitScope → ℕ → Act
  record_audit : AuditRecord → Act
  fetch_secret : Bytes → Act
  exchange : Outbound → Act
  respond : ℕ → Act
  hand_over : Bytes → Act
  abort : Act

-- A secret is `none` where `secrets.Get` fails; its bytes are `none` where `Clone` fails.
abbrev pub Answer : Act → Type 0
Answer resolve_workload = Option Bytes
Answer (validate bearer req) = Option Claims
Answer (charge_request scopes) = Bool
Answer (charge_bytes scopes n) = Bool
Answer (record_audit r) = Bool
Answer (fetch_secret ref) = Option (Option Bytes)
Answer (exchange o) = Exchanged
Answer (respond status) = Unit
Answer (hand_over adapter) = Unit
Answer abort = Unit

abbrev pub Event : Type 0
Event = (a : Act) × Answer a

-- What happened, the latest first.
abbrev pub Trace : Type 0
Trace = List Event

-- `halt` is a `return` of the handler.
pub data Handler (A : Type 0) : Type 0 where
  done : A → Handler A
  halt : Handler A
  ask : (a : Act) → (Answer a → Handler A) → Handler A

infixl 5 ◌>>=◌ ◌>>◌
abbrev pub ◌>>=◌ : {A B : Type 0} → Handler A → (A → Handler B) → Handler B
done a >>= f = f a
halt >>= f = halt
ask a k >>= f = ask a (λ r. k r >>= f)

abbrev pub ◌>>◌ : {B : Type 0} → Handler (Unit {0}) → Handler B → Handler B
m >> k = m >>= λ _. k

-- A call whose answer is the result.
abbrev pub call : (a : Act) → Handler (Answer a)
call a = ask a (λ r. done r)

-- `if !b { … return }`
abbrev pub or_return : Bool → Handler Unit → Handler Unit
or_return true other = done tt
or_return false other = other

-- `if err != nil { … return }`
abbrev pub value_or : {A : Type 0} → Option A → Handler A → Handler A
value_or (some a) other = done a
value_or none other = other

unfoldable pub run : {A : Type 0} → ((t : Trace) → (a : Act) → Answer a) → Handler A → Trace → Trace
run answer (done a) t = t
run answer halt t = t
run answer (ask a k) t = let r = answer t a in run answer (k r) ((a, r) ∷ t)

module _ (Allowed : Act → Trace → Type 0) where
  -- Each act is allowed by what happened before it.
  abbrev pub Lawful : Trace → Type 0
  Lawful [] = Unit
  Lawful ((a, r) ∷ t) = Allowed a t × Lawful t

  -- Every run from this trace asks only what is allowed, and ends in `Q` when it returns a value.
  abbrev pub Ensures : {A : Type 0} → Handler A → (A → Trace → Type 0) → Trace → Type 0
  Ensures (done a) Q t = Q a t
  Ensures halt Q t = Unit
  Ensures (ask a k) Q t = Allowed a t × ((r : Answer a) → Ensures (k r) Q ((a, r) ∷ t))

  pub run-Lawful :
      {A : Type 0} (answer : (t : Trace) → (a : Act) → Answer a) (h : Handler A)
      (Q : A → Trace → Type 0) (t : Trace)
      → Lawful t
      → Ensures h Q t
      → Lawful (run answer h t)
  unfolding run
  run-Lawful answer (done a) Q t l e = l
  run-Lawful answer halt Q t l e = l
  run-Lawful answer (ask a k) Q t l (p, f) =
      let r = answer t a in run-Lawful answer (k r) Q ((a, r) ∷ t) (p, l) (f r)

  pub Ensures-bind :
      {A B : Type 0} (h : Handler A) (f : A → Handler B) (P : A → Trace → Type 0)
      (Q : B → Trace → Type 0) (t : Trace)
      → Ensures h P t
      → ((a : A) (s : Trace) → P a s → Ensures (f a) Q s)
      → Ensures (h >>= f) Q t
  Ensures-bind (done a) f P Q t e k = k a t e
  Ensures-bind halt f P Q t e k = tt
  Ensures-bind (ask a g) f P Q t (p, e) k = (p, λ r. Ensures-bind (g r) f P Q ((a, r) ∷ t) (e r) k)

  -- Every run returns from the handler.
  abbrev pub Returns : {A : Type 0} → Handler A → Type 0
  Returns h = (t : Trace) → Ensures h (λ a s. ⊥) t

  pub Returns-bind :
      {A B : Type 0} (h : Handler A) (f : A → Handler B) (Q : B → Trace → Type 0) (t : Trace)
      → Returns h
      → Ensures (h >>= f) Q t
  Returns-bind h f Q t r = Ensures-bind h f (λ a s. ⊥) Q t (r t) (λ a s x. absurd x)

  pub or_return-Ensures :
      {B : Type 0} (b : Bool) (other : Handler Unit) (f : Unit → Handler B) (Q : B → Trace → Type 0)
      (t : Trace)
      → Returns other
      → (b ≡ true → Ensures (f tt) Q t)
      → Ensures (or_return b other >>= f) Q t
  or_return-Ensures true other f Q t r k = k refl
  or_return-Ensures false other f Q t r k = Returns-bind other f Q t r

  pub value_or-Ensures :
      {A B : Type 0} (o : Option A) (other : Handler A) (f : A → Handler B) (Q : B → Trace → Type 0)
      (t : Trace)
      → Returns other
      → ((a : A) → o ≡ some a → Ensures (f a) Q t)
      → Ensures (value_or o other >>= f) Q t
  value_or-Ensures (some a) other f Q t r k = k a refl
  value_or-Ensures none other f Q t r k = Returns-bind other f Q t r

  pub Ensures-map :
      {A : Type 0} (h : Handler A) (P Q : A → Trace → Type 0) (t : Trace)
      → Ensures h P t
      → ((a : A) (s : Trace) → P a s → Q a s)
      → Ensures h Q t
  Ensures-map (done a) P Q t e k = k a t e
  Ensures-map halt P Q t e k = tt
  Ensures-map (ask a g) P Q t (p, e) k = (p, λ r. Ensures-map (g r) P Q ((a, r) ∷ t) (e r) k)

  -- As the last step of a handler.
  pub value_or-Ensures_last :
      {A : Type 0} (o : Option A) (other : Handler A) (Q : A → Trace → Type 0) (t : Trace)
      → Returns other
      → ((a : A) → o ≡ some a → Q a t)
      → Ensures (value_or o other) Q t
  value_or-Ensures_last (some a) other Q t r k = k a refl
  value_or-Ensures_last none other Q t r k =
      Ensures-map other (λ a s. ⊥) Q t (r t) (λ a s x. absurd x)
