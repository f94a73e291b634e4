-- ===== src/Policy/Glob.antt =====
-- internal/policy/canonical.go: `pathGlob.matches`, the dynamic programming over a compiled pattern.
pub mod Row
pub mod Correct
use forcefield.Base.{
  ℕ, zero, suc, ◌≡◌, ◌≢◌, Bool, true, false, not, List, [], ◌∷◌, if◌then◌else◌, Bytes, bytes_eq,
  length, replicate, get_or, set,
}

pub data PathSegment : Type 0 where
  literal : Bytes → PathSegment
  one many : PathSegment

-- A row of the table: for each position whether the segments so far can end there.
abbrev pub Row : Type 0
Row = List Bool

-- `for k := j; k < len(path) && path[k] != ""; k++ { dp[i+1][k+1] = true }`, where `rest` is the path
-- from `k` on.
unfoldable pub fill : List Bytes → ℕ → Row → Row
unfolding bytes_eq
fill [] k next = next
fill (s ∷ rest) k next =
    let further = fill rest (suc k) (set next (suc k) true) in
    if bytes_eq s [] then next else further

-- The `switch` on the kind of the segment, at a position `j` that can be reached. `rest` is the path
-- from `j` on.
unfoldable pub advance : PathSegment → List Bytes → ℕ → Row → Row
unfolding bytes_eq fill
advance (literal l) [] j next = next
advance (literal l) (s ∷ rest) j next = if bytes_eq s l then set next (suc j) true else next
advance one [] j next = next
advance one (s ∷ rest) j next = if not (bytes_eq s []) then set next (suc j) true else next
advance many rest j next = fill rest j (set next j true)

unfoldable pub cell : PathSegment → Row → List Bytes → ℕ → Row → Row
unfolding advance
cell seg row rest j next = if not (get_or row j false) then next else advance seg rest j next

-- The loop over `j`, up to and including `len(path)`.
unfoldable pub cells : PathSegment → Row → List Bytes → ℕ → Row → Row
unfolding cell
cells seg row [] j next = cell seg row [] j next
cells seg row (s ∷ rest) j next = cells seg row rest (suc j) (cell seg row (s ∷ rest) j next)

unfoldable pub next_row : List Bytes → PathSegment → Row → Row
unfolding cells
next_row path seg row = cells seg row path 0 (replicate (suc (length path)) false)

-- The loop over the segments, from the row `dp[i]`.
unfoldable pub last_row : List Bytes → List PathSegment → Row → Row
unfolding next_row
last_row path [] row = row
last_row path (seg ∷ segs) row = last_row path segs (next_row path seg row)

unfoldable pub matches : List PathSegment → List Bytes → Bool
unfolding last_row
matches segs path =
    get_or (last_row path segs (true ∷ replicate (length path) false)) (length path) false

-- What a pattern means: `*` stands for one segment that is not empty, `**` for any number of them.
pub data Matches : List PathSegment → List Bytes → Type 0 where
  nil : Matches [] []
  this :
      {l s : Bytes} {segs : List PathSegment} {path : List Bytes}
      → s ≡ l
      → Matches segs path
      → Matches (literal l ∷ segs) (s ∷ path)
  any_one :
      {s : Bytes} {segs : List PathSegment} {path : List Bytes}
      → s ≢ []
      → Matches segs path
      → Matches (one ∷ segs) (s ∷ path)
  stop :
      {segs : List PathSegment} {path : List Bytes} → Matches segs path → Matches (many ∷ segs) path
  more :
      {s : Bytes} {segs : List PathSegment} {path : List Bytes}
      → s ≢ []
      → Matches (many ∷ segs) path
      → Matches (many ∷ segs) (s ∷ path)
