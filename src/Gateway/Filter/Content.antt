-- ===== src/Gateway/Filter/Content.antt =====
use Prim.Native.Nat.{ℕ}
use forcefield.Gateway.Filter.{
  held, new_secret_filtering_body, read, after, Reply, drain, no_progress, eof, ReadError,
  not_empty, Chunk, FilteringBody, absorb,
}
use forcefield.Base.{
  ◌≤◌, length-append, subst, ◌∙◌, length, true, drop, take, ◌<◌, contains, append-nil, sym, inr,
  leb, append_assoc, ◌&&◌, ap, not, ◌+◌, inl, refl, if◌then◌else◌, Bool-cases, arith, ◌∷◌, [],
  false, none, ◌++◌, ◌≡◌, some, List, Option, Bytes,
}
use forcefield.Gateway.Filter.Reads.{
  read-Ending, given, over, reflected, answered, refused, idle, Ending, ended, fetched, Fetch,
}
use forcefield.Gateway.Filter.Contains.{Occurs-contains, contains-Occurs}
use forcefield.Gateway.Filter.Suffix.{length-take, take-drop}

-- A body without the secret is relayed whole, with the error of its source.

-- All the bytes of a source up to its first error, and that error; `stalled` reads before gave nothing.
unfoldable pub content : ℕ → List Chunk → Bytes × ReadError
content stalled [] = ([], eof)
content stalled ((chunk, some e) ∷ source) = (chunk, e)
content stalled ((chunk, none) ∷ source) =
    let rest = content (if not_empty chunk then 0 else stalled + 1) source in
    if not (not_empty chunk) && leb 100 (stalled + 1)
    then ([], no_progress)
    else (chunk ++ rest.0, rest.1)

-- What a body still has to give, by its fields.
unfoldable outstanding : Option ReadError → Bytes → ℕ → List Chunk → Bytes × ReadError
unfolding content
outstanding (some e) pending stalled source = (pending, e)
outstanding none pending stalled source =
    let rest = content stalled source in (pending ++ rest.0, rest.1)

abbrev remaining : FilteringBody → Bytes × ReadError
remaining b = outstanding b.terminal b.pending b.stalled b.source

record Rest (p : Bytes) (total : Bytes × ReadError) (b : FilteringBody) : Type 0 where
  pub same : b.secret ≡ p
  pub going : b.found ≡ false
  pub all : remaining b ≡ total

empty_chunk : (chunk : Bytes) → not_empty chunk ≡ false → chunk ≡ []
empty_chunk [] h = refl
empty_chunk (c ∷ s) h = absurd (ground arith)

absorb-remaining :
    (chunk : Chunk) (source : List Chunk) (b : FilteringBody)
    → b.terminal ≡ none
    → b.source ≡ chunk ∷ source
    → remaining (absorb chunk (record b { source = source }))
      ≡ outstanding none b.pending b.stalled (chunk ∷ source)
unfolding absorb outstanding content
absorb-remaining (chunk, some e) source b t h = refl
absorb-remaining (chunk, none) source b t h = elim (Bool-cases (not_empty chunk)) [
  | inl y ↦ rw (y, t) (ap (λ x. (x, (content 0 source).1)) (append_assoc b.pending chunk _))
  | inr n ↦ elim (Bool-cases (leb 100 (b.stalled + 1))) [
    | inl y ↦ rw (n, y) (ap (λ x. (x, no_progress)) (sym (append-nil b.pending)))
    | inr m ↦ rw (n, m, empty_chunk chunk n) refl
  ]
]

absorb-same :
    (chunk : Chunk) (b : FilteringBody)
    → ((absorb chunk b).secret ≡ b.secret) × ((absorb chunk b).found ≡ b.found)
unfolding absorb
absorb-same (chunk, some e) b = (refl, refl)
absorb-same (chunk, none) b = elim (Bool-cases (not_empty chunk)) [
  | inl y ↦ rw y (refl, refl)
  | inr n ↦ rw n (refl, refl)
]

module _ (p : Bytes) (total : Bytes × ReadError) where
  Fetch-Rest :
      (b c : FilteringBody) → b.terminal ≡ none → Fetch b c → Rest p total b → Rest p total c
  Fetch-Rest b _ t (fetched chunk source _ e) r =
      let (s, f) = absorb-same chunk (record b { source = source }) in
      record {
        same = s ∙ r.same;
        going = f ∙ r.going;
        all =
            absorb-remaining chunk source b t e
            ∙ ap (λ x. outstanding none b.pending b.stalled x) (sym e)
            ∙ ap (λ x. outstanding x b.pending b.stalled b.source) (sym t)
            ∙ r.all;
      }
  Fetch-Rest b _ t (ended _ e) r =
      let (s, f) = absorb-same ([], some eof) b in
      record {
        same = s ∙ r.same;
        going = f ∙ r.going;
        all =
            at_end b
            ∙ ap (λ x. outstanding none b.pending b.stalled x) (sym e)
            ∙ ap (λ x. outstanding x b.pending b.stalled b.source) (sym t)
            ∙ r.all;
      }
    where
      at_end :
          (b : FilteringBody)
          → remaining (absorb ([], some eof) b) ≡ outstanding none b.pending b.stalled []
      at_end b = unfold absorb outstanding content in refl

outstanding-pending :
    (terminal : Option ReadError) (pending : Bytes) (stalled : ℕ) (source : List Chunk)
    → (x : Bytes) × ((outstanding terminal pending stalled source).0 ≡ pending ++ x)
unfolding outstanding
outstanding-pending (some e) pending stalled source = ([], sym (append-nil pending))
outstanding-pending none pending stalled source = ((content stalled source).0, refl)

outstanding-given :
    (terminal : Option ReadError) (pending : Bytes) (stalled n : ℕ) (source : List Chunk)
    → (take n pending ++ (outstanding terminal (drop n pending) stalled source).0
        ≡ (outstanding terminal pending stalled source).0)
      × ((outstanding terminal (drop n pending) stalled source).1
          ≡ (outstanding terminal pending stalled source).1)
unfolding outstanding
outstanding-given (some e) pending stalled n source = (take-drop n pending, refl)
outstanding-given none pending stalled n source = (
  sym (append_assoc (take n pending) (drop n pending) ((content stalled source).0))
      ∙ ap (λ t. t ++ (content stalled source).0) (take-drop n pending),
  refl,
)

-- A secret in the pending bytes is a secret in the whole.
Rest-contains :
    (p : Bytes) (total : Bytes × ReadError) (b : FilteringBody)
    → Rest p total b
    → contains b.pending b.secret ≡ true
    → contains total.0 p ≡ true
Rest-contains p total b r h =
    let (u, (w, e)) =
      contains-Occurs p b.pending (subst (λ x. contains b.pending x ≡ true) r.same h) in
    let (x, f) = outstanding-pending b.terminal b.pending b.stalled b.source in
    Occurs-contains p u (total.0)
      (w ++ x, sym (append_assoc (u ++ p) w x) ∙ ap (λ t. t ++ x) e ∙ sym f ∙ ap (λ t. t.0) r.all)

contains-behind : (a s p : Bytes) → contains (a ++ s) p ≡ false → contains s p ≡ false
contains-behind a s p h = elim (Bool-cases (contains s p)) [
  | inr n ↦ n
  | inl y ↦
      let (u, (w, e)) = contains-Occurs p s y in
      let found = Occurs-contains p (a ++ u) (a ++ s) (
        w,
        ap (λ t. t ++ w) (append_assoc a u p) ∙ append_assoc a (u ++ p) w ∙ ap (λ t. a ++ t) e,
      ) in
      absurd (ground arith)
]

over-outstanding :
    (b : FilteringBody) (e : ReadError)
    → length b.pending ≤ held b
    → b.terminal ≡ some e
    → outstanding b.terminal b.pending b.stalled b.source ≡ ([], e)
unfolding outstanding
over-outstanding b e h t =
    ap (λ x. outstanding x b.pending b.stalled b.source) t
    ∙ ap (λ (x : Bytes). (x, e)) (no_bytes b.pending (omega (arith, nothing)))
  where
    nothing : held b ≡ 0
    nothing = unfold held in rw (t, held) refl

    no_bytes : (s : Bytes) → length s ≤ 0 → s ≡ []
    no_bytes [] l = refl
    no_bytes (x ∷ s) l = absurd (omega arith)

abbrev pub Positive : List ℕ → Type 0
Positive [] = Unit
Positive (room ∷ rooms) = (0 < room) × Positive rooms

Rest-drain :
    (p : Bytes) (rooms : List ℕ) (total : Bytes × ReadError) (b : FilteringBody)
    → 0 < length p
    → contains total.0 p ≡ false
    → Positive rooms
    → length total.0 < length rooms
    → Rest p total b
    → drain rooms b ≡ (total.0, some total.1)
unfolding drain
Rest-drain p [] total b z clean q l r = absurd (omega arith)
Rest-drain p (room ∷ rooms) total b z clean (positive, q) l r =
    step (read room b)
      (read-Ending (Rest p total) (Fetch-Rest p total) room b (omega (arith, ap length r.same)) r)
      (λ t c h m s. Rest-drain p rooms t c z h q m s)
  where
    step :
        (reply : Reply)
        → Ending (Rest p total) (Fetch-Rest p total) room b reply
        → ((t : Bytes × ReadError) (c : FilteringBody)
            → contains t.0 p ≡ false
            → length t.0 < length rooms
            → Rest p t c
            → drain rooms c ≡ (t.0, some t.1))
        → after reply (drain rooms reply.0) ≡ (total.0, some total.1)
    step reply (idle e) ih = absurd (omega arith)
    step reply (refused e) ih = absurd (let g = r.going in ground arith)
    step reply (answered c _ s (reflected y)) ih =
        absurd (let h = Rest-contains p total c s y in ground arith)
    step reply (answered c _ s (over e n h t)) ih =
        ap (λ (x : Bytes × ReadError). (x.0, some x.1)) (sym (over-outstanding c e h t) ∙ s.all)
    step reply (answered c _ s (given n h i j)) ih =
        let left = outstanding c.terminal (drop n c.pending) c.stalled c.source in
        let (f, g) = outstanding-given c.terminal c.pending c.stalled n c.source in
        let whole : take n c.pending ++ left.0 ≡ total.0 =
          f ∙ ap (λ (t : Bytes × ReadError). t.0) s.all in
        let fewer : length left.0 < length rooms = omega (
          arith,
          ap length whole,
          length-append (take n c.pending) (left.0),
          length-take n c.pending (omega arith),
        ) in
        let rest =
          ih left (record c { pending = drop n c.pending })
            (contains-behind (take n c.pending) (left.0) p
              (subst (λ x. contains x p ≡ false) (sym whole) clean))
            fewer record { same = s.same; going = s.going; all = refl } in
        ap (λ (x : Bytes × Option ReadError). (take n c.pending ++ x.0, x.1)) rest
        ∙ ap (λ (x : Bytes). (x, some (left.1))) whole
        ∙ ap (λ (x : ReadError). (total.0, some x)) (g ∙ ap (λ (t : Bytes × ReadError). t.1) s.all)

-- If the secret is not empty and does not occur in the bytes of the source, a reader with more buffers
-- than there are bytes, none of them empty, gets exactly these bytes and then the source's error: no
-- byte is lost, held back for ever, or taken for the secret.
pub drain-content :
    (source : List Chunk) (secret : Bytes) (rooms : List ℕ)
    → 0 < length secret
    → contains ((content 0 source).0) secret ≡ false
    → Positive rooms
    → length ((content 0 source).0) < length rooms
    → drain rooms (new_secret_filtering_body source secret)
      ≡ ((content 0 source).0, some ((content 0 source).1))
drain-content source secret rooms z clean q l =
    Rest-drain secret rooms (content 0 source) (new_secret_filtering_body source secret) z clean q l
      (unfold new_secret_filtering_body outstanding in
        record { same = refl; going = refl; all = refl })
