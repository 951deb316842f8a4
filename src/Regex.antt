-- ===== src/Regex.antt =====
-- core/internal/model/regexparse.go: sets of characters and the nodes of a parsed pattern. Patterns
-- are lists of bytes. The position that Go moves through a pattern is the rest of the pattern here.
pub mod Bytes
pub mod Quantifier
pub mod Classes
pub mod Parse
pub mod Summary
pub mod Matching
pub mod Words
pub mod Covers
pub mod Sound
pub mod Excludes
pub mod Lengths
pub mod Rounds
pub mod Fuel
pub mod Counts
pub mod Adjacent
pub mod Leads
pub mod Overlap
pub mod Begins
pub mod Leading
pub mod Unbounded
pub mod Ambiguous
use sast_engine.Prelude.{
  ℕ, zero, suc, ◌+◌, ◌-◌, Bool, true, false, not, ◌&&◌, ◌||◌, List, [], ◌∷◌, if◌then◌else◌, ltb,
  nat_eq,
}

-- The bitmap is read below 128 only.
pub record CharSet : Type 0 where
  pub ascii : ℕ → Bool
  pub non_ascii : Bool

abbrev pub no_chars : CharSet
no_chars = record { ascii = λ k. false; non_ascii = false }

unfoldable pub add : CharSet → ℕ → CharSet
add s c =
    if ltb c 128
    then record s { ascii = λ k. nat_eq k c || s.ascii k }
    else record s { non_ascii = true }

-- `n` characters from `lo` on
unfoldable pub add_from : CharSet → ℕ → ℕ → CharSet
add_from s lo zero = s
add_from s lo (suc n) = add_from (add s lo) (lo + 1) n

unfoldable pub add_range : CharSet → ℕ → ℕ → CharSet
add_range s lo hi = add_from s lo (hi + 1 - lo)

unfoldable pub add_each : CharSet → List ℕ → CharSet
add_each s [] = s
add_each s (c ∷ cs) = add_each (add s c) cs

unfoldable pub add_all : CharSet → CharSet
add_all s = record { ascii = λ k. ltb k 128 || s.ascii k; non_ascii = true }

unfoldable pub negate : CharSet → CharSet
negate s = record { ascii = λ k. not (s.ascii k); non_ascii = not s.non_ascii }

unfoldable pub union : CharSet → CharSet → CharSet
union s o = record { ascii = λ k. o.ascii k || s.ascii k; non_ascii = s.non_ascii || o.non_ascii }

-- `s.ascii['\n'] = false`
unfoldable pub without : CharSet → ℕ → CharSet
without s c = record s { ascii = λ k. not (nat_eq k c) && s.ascii k }

-- what the quantifier of a node sets
pub record Quantity : Type 0 where
  pub unbounded : Bool
  pub optional : Bool
  pub multiple : Bool

abbrev pub once : Quantity
once = record { unbounded = false; optional = false; multiple = false }

-- `reNode`, by its kind. The assertion of a zero-width node is `^`, `$` or zero.
mutual
  pub data ReNode : Type 0 where
    char : CharSet → Quantity → ReNode
    group : Alts → Quantity → ReNode
    assertion : ℕ → Quantity → ReNode

  pub data Nodes : Type 0 where
    stop : Nodes
    node : ReNode → Nodes → Nodes

  pub data Alts : Type 0 where
    none_left : Alts
    branch : Nodes → Alts → Alts

unfoldable pub quantified : ReNode → Quantity → ReNode
quantified (char s q) q' = char s q'
quantified (group alts q) q' = group alts q'
quantified (assertion z q) q' = assertion z q'
