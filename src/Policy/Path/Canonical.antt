-- ===== src/Policy/Path/Canonical.antt =====
-- The canonical spelling of a path.
use forcefield.Base.{
  ok-injective, bind-ok, reject-ok, chain-ok, if◌then◌else◌, ◌⊎◌, drop, has_prefix, inr, ◌∙◌, map,
  bytes_eq_iff, join, Bool-cases, mem_byte, split, some, ap, inl, subst, ◌&&◌, some, arith, not,
  refl, bytes, bytes_eq, contains_any, false, ◌≢◌, [], ok, true, ◌∷◌, ◌≡◌, List, Bytes, reject,
  ◌>>=◌, Bool, Result,
}
use forcefield.Policy.Path.{
  not_absolute, path_parts, canonical_path_parts, PathError, decode_segment, decode_segments,
}
use forcefield.Library.{IsPathEscape, Url, Text}
use forcefield.Policy.Path.Segments.{
  nil, cons, decode_segments-Decoded, inner, SafeSegment-check_segment, final, not-false, cons,
  SafeSegment, Decoded, SafePath,
}
use forcefield.Policy.Path.Spelling.{
  split-empty, only_slash, contains_any-append, split-nonempty, split-append, any_delimiter,
  split-single, append-nonempty,
}

module _ (u : Url) (tx : Text) (laws : IsPathEscape u) where
  split-join :
      (s : Bytes) (rest : List Bytes)
      → split 47 (join (bytes "/") (map u.path_escape (s ∷ rest))) ≡ map u.path_escape (s ∷ rest)
  unfolding join
  split-join s [] = split-single (u.path_escape s) (laws.slash s)
  split-join s (t ∷ rest) =
      split-append (u.path_escape s) (join (bytes "/") (map u.path_escape (t ∷ rest)))
        (laws.slash s)
      ∙ ap (λ r. u.path_escape s ∷ r) (split-join t rest)

  join-delimiter :
      (segs : List Bytes)
      → contains_any (join (bytes "/") (map u.path_escape segs)) (bytes "?#") ≡ false
  unfolding join contains_any mem_byte
  join-delimiter [] = refl
  join-delimiter (s ∷ []) = any_delimiter (u.path_escape s) (laws.question s) (laws.hash s)
  join-delimiter (s ∷ t ∷ rest) =
      contains_any-append (u.path_escape s) (47 ∷ join (bytes "/") (map u.path_escape (t ∷ rest)))
        (bytes "?#")
      ∙ rw
          (
            any_delimiter (u.path_escape s) (laws.question s) (laws.hash s),
            join-delimiter (t ∷ rest),
          )
          refl

  path_escape-empty : (s : Bytes) → u.path_escape s ≡ [] → s ≡ []
  path_escape-empty s e =
      let f = laws.round s in
      let g = laws.round [] in
      let k = laws.empty (u.path_escape []) g in
      ground (
        arith,
        subst (λ t. u.path_unescape t ≡ some s) e f,
        subst (λ t. u.path_unescape t ≡ some []) k g,
      )

  decode_segment-escape :
      (s : Bytes) (more : Bool)
      → bytes_eq (u.path_escape s) [] && more ≡ false
      → SafeSegment tx s
      → decode_segment u tx (u.path_escape s) more ≡ ok s
  unfolding decode_segment
  decode_segment-escape s more e h = rw (e, laws.round s, SafeSegment-check_segment tx s h) refl

  decode_segments-map :
      (segs : List Bytes)
      → SafePath tx segs
      → decode_segments u tx (map u.path_escape segs) ≡ ok segs
  unfolding decode_segments
  decode_segments-map _ (final {s} h) = rw (decode_segment-escape s false (ground arith) h) refl
  decode_segments-map _ (inner {s} {t} {rest} n h p) =
      let e : bytes_eq (u.path_escape s) [] && true ≡ false =
        ground (arith, bytes_eq_iff (u.path_escape s) [], path_escape-empty s) in
      rw (decode_segment-escape s true e h, decode_segments-map (t ∷ rest) p) refl

  Decoded-SafePath :
      (raw : Bytes) (raws segs : List Bytes) → Decoded u tx (raw ∷ raws) segs → SafePath tx segs
  Decoded-SafePath raw _ _ (cons e a h nil) = final h
  Decoded-SafePath raw _ _
        (cons {s = s} e a h (cons {raw = r} {s = t} {raws = rs} {segs = ss} f b g d)) =
      inner
        (λ z.
          let k = laws.empty raw (subst (λ t. u.path_unescape raw ≡ some t) z e) in
          ground (arith, bytes_eq_iff raw []))
        h (Decoded-SafePath r rs (t ∷ ss) (cons f b g d))

  join-nonempty :
      (s : Bytes) (rest : List Bytes)
      → s ∷ rest ≢ [] ∷ []
      → bytes_eq (join (bytes "/") (map u.path_escape (s ∷ rest))) [] ≡ false
  unfolding join bytes_eq
  join-nonempty s [] n =
      let f : s ≢ [] = λ e. n (ap (λ t. t ∷ []) e) in
      ground (arith, bytes_eq_iff (u.path_escape s) [], path_escape-empty s)
  join-nonempty s (t ∷ rest) n =
      append-nonempty (u.path_escape s) 47 (join (bytes "/") (map u.path_escape (t ∷ rest)))

  -- A path that is spelled in the canonical way already.
  path_parts-canonical :
      (s : Bytes) (rest : List Bytes)
      → s ∷ rest ≢ [] ∷ []
      → SafePath tx (s ∷ rest)
      → let path = 47 ∷ join (bytes "/") (map u.path_escape (s ∷ rest)) in
        canonical_path_parts u tx path ≡ ok (path, s ∷ rest)
  unfolding canonical_path_parts path_parts has_prefix contains_any bytes_eq mem_byte
  path_parts-canonical s rest n h =
      let tail = join (bytes "/") (map u.path_escape (s ∷ rest)) in
      let e : bytes_eq tail [] ≡ false = join-nonempty s rest n in
      rw (join-delimiter (s ∷ rest), e, split-join s rest, decode_segments-map (s ∷ rest) h) refl

  Decoded-empty : (raws : List Bytes) → Decoded u tx raws ([] ∷ []) → raws ≡ [] ∷ []
  Decoded-empty _ (cons {raw = raw} e a h nil) = ap (λ r. r ∷ []) (laws.empty raw e)

  -- What is left to say of a path that the tests on the whole path let through.
  below_root :
      (path : Bytes) (segs : List Bytes)
      → has_prefix path (bytes "/") ≡ true
      → bytes_eq path (bytes "/") ≡ false
      → Decoded u tx (split 47 (drop 1 path)) segs
      → SafePath tx segs × (segs ≢ [] ∷ [])
  below_root path segs a b d =
      let (p, ps, e) = split-nonempty 47 (drop 1 path) in
      (
        Decoded-SafePath p ps segs (subst (λ raws. Decoded u tx raws segs) e d),
        λ z.
            let f = Decoded-empty (split 47 (drop 1 path)) (subst (Decoded u tx _) z d) in
            let g = only_slash path a (split-empty (drop 1 path) f) in ground arith,
      )

  -- What is accepted of a path: its canonical spelling is made of the segments, is accepted as it
  -- is, and the segments are safe.
  abbrev Accepted : Bytes → List Bytes → Type 0
  Accepted path segs =
      (path ≡ 47 ∷ join (bytes "/") (map u.path_escape segs))
      × (canonical_path_parts u tx path ≡ ok (path, segs))
      × ((segs ≡ []) ⊎ SafePath tx segs)

  root-Accepted : Accepted (bytes "/") []
  unfolding canonical_path_parts path_parts has_prefix contains_any bytes_eq mem_byte join
  root-Accepted = (refl, refl, inl refl)

  safe-Accepted :
      (found : List Bytes)
      → SafePath tx found
      → found ≢ [] ∷ []
      → Accepted (47 ∷ join (bytes "/") (map u.path_escape found)) found
  safe-Accepted [] safe n = elim safe [ ]
  safe-Accepted (s ∷ rest) safe n = (refl, path_parts-canonical s rest n safe, inr safe)

  -- The result for the segments that are found below the root.
  abbrev spelled : List Bytes → Result PathError (Bytes × List Bytes)
  spelled segs = ok (47 ∷ join (bytes "/") (map u.path_escape segs), segs)

  path_parts-Accepted :
      (path q : Bytes) (segs : List Bytes) → path_parts u tx path ≡ ok (q, segs) → Accepted q segs
  unfolding path_parts
  path_parts-Accepted path q segs h =
      let below = decode_segments u tx (split 47 (drop 1 path)) >>= spelled in
      let (h1, rest) =
        chain-ok _ (if bytes_eq path (bytes "/") then ok (bytes "/", []) else below) (q, segs) h in
      let (h2, _) = chain-ok (reject (not (has_prefix path (bytes "/"))) not_absolute) _ tt h1 in
      let absolute = not-false (has_prefix path (bytes "/")) (reject-ok _ not_absolute h2) in
      elim (Bool-cases (bytes_eq path (bytes "/"))) [
        | inl e ↦
            let g = subst (λ b. (if b then ok (bytes "/", []) else below) ≡ ok (q, segs)) e rest in
            subst (λ r. Accepted r.0 r.1) (ok-injective _ (q, segs) g) root-Accepted
        | inr e ↦
            let g = subst (λ b. (if b then ok (bytes "/", []) else below) ≡ ok (q, segs)) e rest in
            let (found, f, k) =
              bind-ok (decode_segments u tx (split 47 (drop 1 path))) spelled (q, segs) g in
            let (safe, n) =
              below_root path found absolute e
                (decode_segments-Decoded u tx (split 47 (drop 1 path)) found f) in
            subst (λ r. Accepted r.0 r.1) (ok-injective _ (q, segs) k) (safe-Accepted found safe n)
      ]

-- A path that is accepted has a canonical spelling that is accepted itself and stands for the same
-- segments; it is `/` and the escaped segments with `/` between them. Each segment is UTF-8, is not
-- `.` or `..`, has no `/`, `\`, `;`, rune below U+0020, DEL or second escape, and only the last one
-- may be empty. The escapes are assumed to keep their promises (IsPathEscape).
pub canonical_path_parts-Accepted :
    (u : Url) (tx : Text)
    → IsPathEscape u
    → (path q : Bytes) (segs : List Bytes) → canonical_path_parts u tx path ≡ ok (q, segs)
    → (q ≡ 47 ∷ join (bytes "/") (map u.path_escape segs))
      × (canonical_path_parts u tx q ≡ ok (q, segs))
      × ((segs ≡ []) ⊎ SafePath tx segs)
unfolding canonical_path_parts
canonical_path_parts-Accepted u tx laws path q segs h =
    path_parts-Accepted u tx laws (if bytes_eq path [] then bytes "/" else path) q segs h
