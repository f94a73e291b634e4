-- ===== src/Gateway/Serve/Reply.antt =====
-- How often a handler answers the client.
use forcefield.Base.{
  arith, ◌+◌, ap, refl, not, if◌then◌else◌, ◌==◌, Option, ◌≡◌, ℕ, Bool, [], ◌∷◌, none, some, true,
  false, ◌||◌, ◌∙◌,
}
use forcefield.Gateway.Serve.{Metadata, refuse, deny_record}
use forcefield.Gateway.Handler.{
  Act, Answer, Trace, Handler, done, halt, ask, respond, hand_over, exchange, ◌>>=◌, or_return,
  value_or, run,
}

-- The acts by which the client gets an answer: a generic one, another handler's, the upstream's.
abbrev pub answers : (a : Act) → Answer a → Bool
answers (respond status) r = true
answers (hand_over adapter) r = true
answers (exchange o) x = not (x.status == 0)
answers _ r = false

unfoldable pub count_answers : Trace → ℕ
count_answers [] = 0
count_answers ((a, r) ∷ t) = (if answers a r then 1 else 0) + count_answers t

-- The statuses of the answers that say no more than that the request is denied.
abbrev pub generic_status : ℕ → Bool
generic_status status = status == 404 || status == 429 || status == 502 || status == 503

abbrev pub IsGeneric : Act → Type 0
IsGeneric (respond status) = generic_status status ≡ true
IsGeneric _ = Unit

abbrev pub AllGeneric : Trace → Type 0
AllGeneric [] = Unit
AllGeneric ((a, r) ∷ t) = IsGeneric a × AllGeneric t

-- `forward` returns without an error only with the status of a response.
abbrev pub Possible : (a : Act) → Answer a → Type 0
Possible (exchange o) x = x.failed ≡ false → (x.status == 0) ≡ false
Possible _ r = Unit

-- From a state in which the client was answered or not, every run answers at most once in all, and has
-- answered when the handler returns; `Q` holds where the handler goes on.
abbrev pub Settles : {A : Type 0} → Handler A → Bool → (A → Bool → Type 0) → Type 0
Settles (done a) b Q = Q a b
Settles halt b Q = b ≡ true
Settles (ask a k) b Q =
    IsGeneric a
    × ((r : Answer a)
        → Possible a r
        → (answers a r ≡ true → b ≡ false) × Settles (k r) (b || answers a r) Q)

abbrev pub as_number : Bool → ℕ
as_number b = if b then 1 else 0

pub run-Settles :
    {A : Type 0} (answer : (t : Trace) → (a : Act) → Answer a) (h : Handler A) (b : Bool)
    (t : Trace)
    → ((t : Trace) → (a : Act) → Possible a (answer t a))
    → count_answers t ≡ as_number b
    → AllGeneric t
    → Settles h b (λ a c. c ≡ true)
    → (count_answers (run answer h t) ≡ 1) × AllGeneric (run answer h t)
unfolding run count_answers
run-Settles answer (done a) b t f e g s = (e ∙ ap as_number s, g)
run-Settles answer halt b t f e g s = (e ∙ ap as_number s, g)
run-Settles answer (ask a k) b t f e g (p, s) =
    let r = answer t a in
    let (q, z) = s r (f t a) in
    run-Settles answer (k r) (b || answers a r) ((a, r) ∷ t) f (step b (answers a r) q e) (p, g) z
  where
    step :
        (b c : Bool)
        → (c ≡ true → b ≡ false)
        → count_answers t ≡ as_number b
        → (if c then 1 else 0) + count_answers t ≡ as_number (b || c)
    step true true q e = absurd (let z = q refl in ground arith)
    step true false q e = omega arith
    step false true q e = omega arith
    step false false q e = omega arith

pub Settles-bind :
    {A B : Type 0} (h : Handler A) (f : A → Handler B) (b : Bool) (P : A → Bool → Type 0)
    (Q : B → Bool → Type 0)
    → Settles h b P
    → ((a : A) (c : Bool) → P a c → Settles (f a) c Q)
    → Settles (h >>= f) b Q
Settles-bind (done a) f b P Q s k = k a b s
Settles-bind halt f b P Q s k = s
Settles-bind (ask a g) f b P Q (p, s) k =
    (p, λ r z. let (q, w) = s r z in (q, Settles-bind (g r) f (b || answers a r) P Q w k))

-- Every run answers and returns.
abbrev pub Refuses : {A : Type 0} → Handler A → Type 0
Refuses h = Settles h false (λ a b. ⊥)

pub or_return-Settles :
    {B : Type 0} (b : Bool) (other : Handler Unit) (f : Unit → Handler B) (Q : B → Bool → Type 0)
    → Refuses other
    → Settles (f tt) false Q
    → Settles (or_return b other >>= f) false Q
or_return-Settles true other f Q r k = k
or_return-Settles false other f Q r k =
    Settles-bind other f false (λ a b. ⊥) Q r (λ a c x. absurd x)

pub value_or-Settles :
    {A B : Type 0} (o : Option A) (other : Handler A) (f : A → Handler B) (Q : B → Bool → Type 0)
    → Refuses other
    → ((a : A) → Settles (f a) false Q)
    → Settles (value_or o other >>= f) false Q
value_or-Settles (some a) other f Q r k = k a
value_or-Settles none other f Q r k = Settles-bind other f false (λ a b. ⊥) Q r (λ a c x. absurd x)

abbrev no_metadata : Metadata
no_metadata = record {
  request_id = [];
  token_id = [];
  root_token_id = [];
  method = [];
  path_hash = [];
}

-- The parts that only refuse leave the client without an answer.
abbrev pub Unanswered : {A : Type 0} → A → Bool → Type 0
Unanswered a b = b ≡ false

pub value_or-Settles_last :
    {A : Type 0} (o : Option A) (other : Handler A)
    → Refuses other
    → Settles (value_or o other) false Unanswered
value_or-Settles_last (some a) other r = refl
value_or-Settles_last none other r = weaken other false r
  where
    weaken :
        {A : Type 0} (h : Handler A) (b : Bool) → Settles h b (λ a c. ⊥) → Settles h b Unanswered
    weaken (done a) b s = absurd s
    weaken halt b s = s
    weaken (ask a g) b (p, s) =
        (p, λ r z. let (q, w) = s r z in (q, weaken (g r) (b || answers a r) w))

-- Every refusal answers and returns, whatever it records.
pub refuse-Refuses : Refuses (refuse {A = Unit {0}} (deny_record no_metadata [] [] [] 404 0) 404)
refuse-Refuses = (tt, λ a p. (λ e. refl, (refl, λ q z. (λ e. refl, refl))))
