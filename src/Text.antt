-- ===== src/Text.antt =====
-- The parts of Rust's `str` that the server uses. A text is the list of its code points (or bytes,
-- where the code compares ASCII).
pub mod Decimal
pub mod Split
mod Tests
use Prim.Native.Char.{Char, code}
use Prim.Native.String.{String}
use cncnet_server.Base.{
  ℕ, suc, Bool, true, false, ◌&&◌, Option, none, some, List, [], ◌∷◌, ◌++◌, ◌==◌, if◌then◌else◌,
}

abbrev pub codes : String → List ℕ
codes String.[] = []
codes (String.◌∷◌ c s) = code c ∷ codes s

-- `str::strip_prefix`
abbrev pub strip_prefix : List ℕ → List ℕ → Option (List ℕ)
strip_prefix [] s = some s
strip_prefix (c ∷ p) [] = none
strip_prefix (c ∷ p) (x ∷ s) = if c == x then strip_prefix p s else none

abbrev pub starts_with : List ℕ → List ℕ → Bool
starts_with p s = elim (strip_prefix p s) [ none ↦ false | some _ ↦ true ]

-- The first piece of a split, one character longer.
abbrev pub cons_piece : ℕ → List (List ℕ) → List (List ℕ)
cons_piece c [] = (c ∷ []) ∷ []
cons_piece c (piece ∷ pieces) = (c ∷ piece) ∷ pieces

-- `str::split` at a character: one piece more than there are separators.
abbrev pub split : ℕ → List ℕ → List (List ℕ)
split sep [] = [] ∷ []
split sep (c ∷ s) = if c == sep then [] ∷ split sep s else cons_piece c (split sep s)

-- `[T]::join`
abbrev pub join : ℕ → List (List ℕ) → List ℕ
join sep [] = []
join sep (piece ∷ []) = piece
join sep (piece ∷ other ∷ pieces) = piece ++ (sep ∷ join sep (other ∷ pieces))
