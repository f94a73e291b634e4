-- ===== src/Tokens/Revoke.antt =====
-- internal/tokens/store.go: the breadth-first walk of `revokeHash` over a token's descendants.
pub mod Cost
pub mod Walk
pub mod Linked
use forcefield.Base.{
  ℕ, zero, suc, ◌+◌, ◌*◌, ◌<◌, ◌≡◌, Bool, true, false, not, ◌||◌, Option, none, some, List, [], ◌∷◌,
  ◌++◌, ltb, if◌then◌else◌, is_some, Bytes, bytes_eq, lookup, put,
}
use forcefield.Tokens.Types.{TokenRecord, Records, zero_record}

-- `children[parent]`, in the order of the map's entries.
unfoldable pub children_of : Records → Bytes → List Bytes
unfolding bytes_eq
children_of [] h = []
children_of ((k, r) ∷ m) h =
    let rest = children_of m h in
    if ltb 0 r.depth then if bytes_eq r.parent h then k ∷ rest else rest else rest

-- `next[current]`, the zero record for a key that is missing.
unfoldable pub at_key : Option TokenRecord → TokenRecord
at_key none = zero_record
at_key (some r) = r

unfoldable pub mark_revoked : ℕ → TokenRecord → TokenRecord
mark_revoked now r = record r { revoked_at = some now }

-- One visit: the records after it.
unfoldable pub visit : ℕ → Bytes → TokenRecord → Records → Records
unfolding mark_revoked put
visit now current r next =
    if is_some r.revoked_at then next else put current (mark_revoked now r) next

-- The loop over the queue; `none` when the fuel is out. `base` is the map from which `children` was
-- built, the result holds `next` and `changed`.
unfoldable pub walk : ℕ → ℕ → Records → Records → List Bytes → Bool → Option (Records × Bool)
walk fuel now base next [] changed = some (next, changed)
walk zero now base next (current ∷ queue) changed = none
walk (suc fuel) now base next (current ∷ queue) changed =
    let r = at_key (lookup current next) in
    walk fuel now base (visit now current r next) (queue ++ children_of base current)
      (changed || not (is_some r.revoked_at))

-- Visits below a record that is `levels` above the deepest, with at most `n` children each.
unfoldable pub cost : ℕ → ℕ → ℕ
cost n zero = 1
cost n (suc levels) = suc (n * cost n levels)

-- The record of `h` stands below that of `top`, or is it.
pub data Below (m : Records) (top : Bytes) : Bytes → Type 0 where
  self : Below m top top
  child :
      {j k : Bytes} {r : TokenRecord}
      → Below m top j
      → lookup k m ≡ some r
      → 0 < r.depth
      → r.parent ≡ j
      → Below m top k
