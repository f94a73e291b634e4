-- ===== src/Base/Strings.antt =====
-- What the program calls of Go's package `strings`, over byte strings.
use Prim.Native.Nat.{ℕ, ◌-◌}
use mathlib.Core.Bool.{Bool, true, false, ◌&&◌, ◌||◌}
use mathlib.Core.List.{List, [], ◌∷◌, ◌++◌}
use forcefield.Base.Tests.{ltb, Bytes, bytes_eq, leb, ◌==◌, if◌then◌else◌}
use forcefield.Base.Lists.{length, drop, take}

unfoldable pub has_prefix : Bytes → Bytes → Bool
has_prefix s [] = true
has_prefix [] (p ∷ ps) = false
has_prefix (c ∷ s) (p ∷ ps) = c == p && has_prefix s ps

unfoldable pub has_suffix : Bytes → Bytes → Bool
unfolding bytes_eq
has_suffix s suffix =
    leb (length suffix) (length s) && bytes_eq (drop (length s - length suffix) s) suffix

-- `strings.Contains`: some suffix of the text begins with the needle.
unfoldable pub contains : Bytes → Bytes → Bool
unfolding has_prefix
contains [] needle = has_prefix [] needle
contains (c ∷ s) needle = has_prefix (c ∷ s) needle || contains s needle

-- `strings.ContainsRune(set, rune(b))` for an ASCII set, and `slices.Contains` on bytes.
unfoldable pub mem_byte : ℕ → Bytes → Bool
mem_byte b [] = false
mem_byte b (c ∷ s) = b == c || mem_byte b s

-- `strings.Split` at a one-byte separator.
unfoldable pub split : ℕ → Bytes → List Bytes
split sep [] = [] ∷ []
split sep (c ∷ s) = elim (split sep s) [
  | [] ↦ [] ∷ []
  | part ∷ parts ↦ if c == sep then [] ∷ part ∷ parts else (c ∷ part) ∷ parts
]

-- `strings.TrimSuffix`, `strings.TrimPrefix`
unfoldable pub trim_suffix : Bytes → Bytes → Bytes
unfolding has_suffix
trim_suffix s suffix = if has_suffix s suffix then take (length s - length suffix) s else s

unfoldable pub trim_prefix : Bytes → Bytes → Bytes
unfolding has_prefix
trim_prefix s prefix = if has_prefix s prefix then drop (length prefix) s else s

-- `strings.Join`
unfoldable pub join : Bytes → List Bytes → Bytes
join sep [] = []
join sep (s ∷ []) = s
join sep (s ∷ t ∷ rest) = s ++ (sep ++ join sep (t ∷ rest))

-- `strings.ContainsAny` for an ASCII set.
unfoldable pub contains_any : Bytes → Bytes → Bool
unfolding mem_byte
contains_any [] set = false
contains_any (c ∷ s) set = mem_byte c set || contains_any s set

-- `<` on strings.
unfoldable pub bytes_ltb : Bytes → Bytes → Bool
bytes_ltb [] [] = false
bytes_ltb [] (b ∷ t) = true
bytes_ltb (a ∷ s) [] = false
bytes_ltb (a ∷ s) (b ∷ t) = ltb a b || a == b && bytes_ltb s t

-- `sort.Strings`
unfoldable pub insert_string : Bytes → List Bytes → List Bytes
unfolding bytes_ltb
insert_string s [] = s ∷ []
insert_string s (t ∷ ts) = if bytes_ltb t s then t ∷ insert_string s ts else s ∷ t ∷ ts

unfoldable pub sort_strings : List Bytes → List Bytes
unfolding insert_string
sort_strings [] = []
sort_strings (s ∷ ss) = insert_string s (sort_strings ss)

-- A lookup in a set of strings.
unfoldable pub member : Bytes → List Bytes → Bool
unfolding bytes_eq
member s [] = false
member s (t ∷ ts) = bytes_eq t s || member s ts
