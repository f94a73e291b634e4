-- ===== src/Policy/Path/Segments.antt =====
-- What the checks of the segments of a path let through.
use forcefield.Base.{
  ok-injective, reject-ok, chain-ok, bind-ok, Option, none, some, ap, sym, subst, ◌&&◌, some, arith,
  not, refl, ◌||◌, bytes, bytes_eq, contains_any, false, ◌≢◌, err, [], ok, true, ◌∷◌, ◌≡◌, List,
  Bytes, reject, Bool,
}
use forcefield.Policy.Path.{
  invalid_escape, control_character, dot_segment, follows, double_encoded, repeated_slash,
  encoded_separator, not_utf8, decode_segment, decode_segments, contains_control,
  contains_percent_triplet, check_segment,
}
use forcefield.Library.{Url, Text}

-- A segment that names one thing only: text without separators, escapes or control characters.
pub record SafeSegment (tx : Text) (s : Bytes) : Type 0 where
  pub utf8 : tx.valid_utf8 s ≡ true
  pub separators : contains_any s (47 ∷ 92 ∷ 59 ∷ []) ≡ false
  pub triplet : contains_percent_triplet s ≡ false
  pub dots : bytes_eq s (bytes ".") || bytes_eq s (bytes "..") ≡ false
  pub control : contains_control tx s ≡ false

-- Only the last segment may be empty.
pub data SafePath (tx : Text) : List Bytes → Type 0 where
  final : {s : Bytes} → SafeSegment tx s → SafePath tx (s ∷ [])
  inner :
      {s t : Bytes} {rest : List Bytes}
      → s ≢ []
      → SafeSegment tx s
      → SafePath tx (t ∷ rest)
      → SafePath tx (s ∷ t ∷ rest)

pub not-false : (b : Bool) → not b ≡ false → b ≡ true
not-false true h = refl
not-false false h = absurd (ground arith)

pub check_segment-ok :
    (tx : Text) (s t : Bytes) → check_segment tx s ≡ ok t → (t ≡ s) × SafeSegment tx s
unfolding check_segment
check_segment-ok tx s t h =
    let (h1, k) = chain-ok _ (ok s) t h in
    let (h2, e) = chain-ok _ (reject (contains_control tx s) control_character) tt h1 in
    let (h3, d) = chain-ok _ (reject _ dot_segment) tt h2 in
    let (h4, c) = chain-ok _ (reject (contains_percent_triplet s) double_encoded) tt h3 in
    let (a, b) =
      chain-ok (reject (not (tx.valid_utf8 s)) not_utf8) (reject _ encoded_separator) tt h4 in
    (
      sym (ok-injective s t k),
      record {
        utf8 = not-false (tx.valid_utf8 s) (reject-ok _ not_utf8 a);
        separators = reject-ok _ encoded_separator b;
        triplet = reject-ok _ double_encoded c;
        dots = reject-ok _ dot_segment d;
        control = reject-ok _ control_character e;
      },
    )

pub SafeSegment-check_segment :
    (tx : Text) (s : Bytes) → SafeSegment tx s → check_segment tx s ≡ ok s
unfolding check_segment
SafeSegment-check_segment tx s h = rw (h.utf8, h.separators, h.triplet, h.dots, h.control) refl

-- What the loop's result says of the raw segments.
pub data Decoded (u : Url) (tx : Text) : List Bytes → List Bytes → Type 0 where
  nil : Decoded u tx [] []
  cons :
      {raw s : Bytes} {raws segs : List Bytes}
      → u.path_unescape raw ≡ some s
      → bytes_eq raw [] && follows raws ≡ false
      → SafeSegment tx s
      → Decoded u tx raws segs
      → Decoded u tx (raw ∷ raws) (s ∷ segs)

module _ (u : Url) (tx : Text) where
  pub decode_segment-ok :
      (raw s : Bytes) (more : Bool)
      → decode_segment u tx raw more ≡ ok s
      → (bytes_eq raw [] && more ≡ false) × (u.path_unescape raw ≡ some s) × SafeSegment tx s
  unfolding decode_segment
  decode_segment-ok raw s more h =
      let (a, b) = chain-ok (reject (bytes_eq raw [] && more) repeated_slash) _ s h in
      let (c, d) = unescaped (u.path_unescape raw) b in (reject-ok _ repeated_slash a, c, d)
    where
      unescaped :
          (o : Option Bytes)
          → elim o [ none ↦ err invalid_escape | some t ↦ check_segment tx t ] ≡ ok s
          → (o ≡ some s) × SafeSegment tx s
      unescaped none e = absurd (ground arith)
      unescaped (some t) e =
          let (f, g) = check_segment-ok tx t s e in
          (ap some (sym f), subst (SafeSegment tx) (sym f) g)

  pub decode_segments-Decoded :
      (raws segs : List Bytes) → decode_segments u tx raws ≡ ok segs → Decoded u tx raws segs
  unfolding decode_segments
  decode_segments-Decoded [] segs h = subst (Decoded u tx []) (ok-injective [] segs h) nil
  decode_segments-Decoded (raw ∷ raws) segs h =
      let (s, e, h1) = bind-ok (decode_segment u tx raw (follows raws)) _ segs h in
      let (more, f, h2) = bind-ok (decode_segments u tx raws) _ segs h1 in
      let (a, b, c) = decode_segment-ok raw s (follows raws) e in
      subst (Decoded u tx (raw ∷ raws)) (ok-injective (s ∷ more) segs h2)
        (cons b a c (decode_segments-Decoded raws more f))
