-- ===== src/Gateway/Filter.antt =====
-- internal/gateway/response.go: `secretFilteringBody`, which relays a body until the credential shows
-- in it.
pub mod Suffix
pub mod Failure
pub mod Table
pub mod Overlap
pub mod Contains
pub mod Reads
pub mod Safety
pub mod Content
use forcefield.Base.{
  not, ◌&&◌, take, ltb, set, leb, length, ◌-◌, replicate, Bool, ◌+◌, [], drop, Option, get_or, ◌∷◌,
  ◌++◌, contains, List, Bytes, ◌==◌, ℕ, none, some, true, false, zero, suc, if◌then◌else◌,
}

pub data ReadError : Type 0 where
  eof no_progress secret_reflection : ReadError
  source_failed : ℕ → ReadError

-- What one call of `source.Read` gives: bytes, and an error or none. A source that has no more of
-- these is at its end.
abbrev pub Chunk : Type 0
Chunk = Bytes × Option ReadError

pub record FilteringBody : Type 0 where
  pub source : List Chunk
  pub secret : Bytes
  pub failure : List ℕ
  pub pending : Bytes
  pub terminal : Option ReadError
  pub found : Bool
  pub stalled : ℕ

module _ (pattern : Bytes) (failure : List ℕ) where
  -- `for matched > 0 && c != pattern[matched] { matched = failure[matched-1] }`; the fuel is the value
  -- of `matched` at the start.
  unfoldable pub fall_back : ℕ → ℕ → ℕ → ℕ
  fall_back zero c matched = matched
  fall_back (suc fuel) c matched =
      let shorter = fall_back fuel c (get_or failure (matched - 1) 0) in
      if ltb 0 matched && not (c == get_or pattern matched 0) then shorter else matched

  -- One byte more of the text: the match falls back and may grow by one.
  unfoldable pub advance_match : ℕ → ℕ → ℕ
  unfolding fall_back
  advance_match c matched =
      let fallen = fall_back matched c matched in
      if c == get_or pattern fallen 0 then fallen + 1 else fallen

  unfoldable pub overlap_from : Bytes → ℕ → ℕ
  unfolding advance_match
  overlap_from [] matched = matched
  overlap_from (c ∷ value) matched =
      let grown = advance_match c matched in
      overlap_from value (if grown == length pattern then get_or failure (grown - 1) 0 else grown)

-- The loop of `prefixFailure` from `index` on; `rest` is the pattern from there.
unfoldable pub failure_from : Bytes → Bytes → ℕ → ℕ → List ℕ → List ℕ
unfolding advance_match
failure_from pattern [] index matched failure = failure
failure_from pattern (c ∷ rest) index matched failure =
    let grown = advance_match pattern failure c matched in
    failure_from pattern rest (index + 1) grown (set failure index grown)

unfoldable pub prefix_failure : Bytes → List ℕ
unfolding failure_from
prefix_failure pattern = failure_from pattern (drop 1 pattern) 1 0 (replicate (length pattern) 0)

unfoldable pub suffix_prefix_overlap : Bytes → Bytes → List ℕ → ℕ
unfolding overlap_from
suffix_prefix_overlap value pattern failure = overlap_from pattern failure value 0

unfoldable pub new_secret_filtering_body : List Chunk → Bytes → FilteringBody
unfolding prefix_failure
new_secret_filtering_body source secret = record {
  source = source;
  secret = secret;
  failure = prefix_failure secret;
  pending = [];
  terminal = none;
  found = false;
  stalled = 0;
}

abbrev pub Reply : Type 0
Reply = FilteringBody × Bytes × Option ReadError

-- How many bytes at the end of `pending` are held back.
unfoldable pub held : FilteringBody → ℕ
unfolding suffix_prefix_overlap
held b = elim b.terminal [ none ↦ suffix_prefix_overlap b.pending b.secret b.failure | some e ↦ 0 ]

-- The body of the loop before its read of the source, for a buffer of `room` bytes; `none` if the
-- loop goes on to that read.
unfoldable pub attempt : ℕ → FilteringBody → Option Reply
unfolding contains held
attempt room b =
    let safe = length b.pending - held b in
    let given = if ltb room safe then room else safe in
    if contains b.pending b.secret
    then some (record b { pending = []; found = true }, [], some secret_reflection)
    else if ltb 0 safe
    then some (record b { pending = drop given b.pending }, take given b.pending, none)
    else elim b.terminal [ none ↦ none | some e ↦ some (record b { terminal = none }, [], some e) ]

abbrev pub not_empty : Bytes → Bool
not_empty [] = false
not_empty (c ∷ s) = true

-- What the loop does with the result of its read.
unfoldable pub absorb : Chunk → FilteringBody → FilteringBody
absorb (chunk, error) b = elim error [
  | some e ↦ record b {
    pending = b.pending ++ chunk;
    terminal = some e;
    stalled = if not_empty chunk then 0 else b.stalled;
  }
  | none ↦
      if not_empty chunk then record b { pending = b.pending ++ chunk; stalled = 0 } else record b {
        stalled = b.stalled + 1;
        terminal = if leb 100 (b.stalled + 1) then some no_progress else none;
      }
]

-- The loop, by the reads that the source has left. At its end the second attempt always answers.
unfoldable pub read_loop : ℕ → List Chunk → FilteringBody → Reply
unfolding attempt absorb
read_loop room [] b = elim (attempt room b) [
  | some r ↦ r
  | none ↦ elim (attempt room (absorb ([], some eof) b)) [ some r ↦ r | none ↦ (b, [], some eof) ]
]
read_loop room (chunk ∷ source) b = elim (attempt room b) [
  | some r ↦ r
  | none ↦ read_loop room source (absorb chunk (record b { source = source }))
]

-- `source.Read(p)` itself, for a body that was closed.
unfoldable pub pass_through : List Chunk → FilteringBody → Reply
pass_through [] b = (b, [], some eof)
pass_through ((chunk, error) ∷ source) b = (record b { source = source }, chunk, error)

unfoldable pub read : ℕ → FilteringBody → Reply
unfolding read_loop pass_through
read room b =
    if room == 0
    then (b, [], none)
    else if b.found
    then (b, [], some secret_reflection)
    else if length b.secret == 0
    then pass_through b.source b
    else read_loop room b.source b

-- The bytes and the error of a caller that got this reply, and `rest` of the calls after it.
unfoldable pub after : Reply → Bytes × Option ReadError → Bytes × Option ReadError
after (b, got, some e) rest = (got, some e)
after (b, got, none) (rest, end) = (got ++ rest, end)

-- A caller that reads with buffers of these sizes up to the first error, as `io.Copy` does: the bytes
-- it got and the error.
unfoldable pub drain : List ℕ → FilteringBody → Bytes × Option ReadError
unfolding read after
drain [] b = ([], none)
drain (room ∷ rooms) b = let r = read room b in after r (drain rooms r.0)
