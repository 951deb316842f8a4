-- ===== src/Prelude/Sizes.antt =====
-- How many keys a set has: `len` of a Go map, and the counting that bounds the loops.
use sast_engine.Prelude.Tests.{same, same_iff, Bool-cases, length, nat_eq}
use sast_engine.Prelude.Sets.{
  StrSet, contains, insert, keep, all_in, all_in_iff, IsDistinct, Subset, contains-keep,
  contains-head, contains-tail,
}
use Prim.Native.Nat.{suc, ◌≤◌, ◌<◌}
use Prim.Native.String.{String}
use mathlib.Core.Path.{◌≡◌}
use mathlib.Core.Logic.{inl, inr}
use mathlib.Core.Bool.{Bool, true, false, not, ◌&&◌}
use mathlib.Core.List.{[], ◌∷◌}
use native.Mathlib.Omega.{arith}

-- the keys other than one
abbrev without : String → StrSet → StrSet
without a xs = keep (λ k. not (same k a)) xs

pub length-keep-le : (p : String → Bool) (xs : StrSet) → length (keep p xs) ≤ length xs
unfolding keep
length-keep-le p [] = omega arith
length-keep-le p (x ∷ xs) = ground (arith, length-keep-le p xs)

length-without-lt :
    (a : String) (xs : StrSet) → contains xs a ≡ true → length (without a xs) < length xs
unfolding keep contains
length-without-lt a [] h = cc
length-without-lt a (x ∷ xs) h =
    ground (arith, length-without-lt a xs, length-keep-le (λ k. not (same k a)) xs)

-- A set without repetition is no longer than a list that has its keys.
pub length-le_of_Subset : (xs ys : StrSet) → IsDistinct xs → Subset xs ys → length xs ≤ length ys
length-le_of_Subset [] ys d h = omega arith
length-le_of_Subset (x ∷ xs) ys d h =
    let rest = length-le_of_Subset xs (without x ys) d.1 λ k e. ground (
      arith,
      contains-keep (λ k. not (same k x)) ys k,
      h k (contains-tail x xs k e),
      same_iff k x,
    ) in
    omega (arith, rest, length-without-lt x ys (h x (contains-head x xs)))

-- Of two such sets with equally many keys, the first within the second, each has all the keys.
pub Subset_of_length :
    (xs ys : StrSet) → IsDistinct xs → Subset xs ys → length xs ≡ length ys → Subset ys xs
Subset_of_length xs ys d h e k m = elim (Bool-cases (contains xs k)) [
  | inl yes_k ↦ yes_k
  | inr no_k ↦
      let shorter =
        length-le_of_Subset xs (without k ys) d
          λ j n. ground (arith, contains-keep (λ i. not (same i k)) ys j, h j n, same_iff j k) in
      absurd (omega (arith, shorter, length-without-lt k ys m))
]

-- `sameSet`: as many keys, and each key of the first in the second.
unfoldable pub same_set : StrSet → StrSet → Bool
same_set xs ys = nat_eq (length xs) (length ys) && all_in xs ys

pub same_set→Subset :
    (xs ys : StrSet) → IsDistinct xs → same_set xs ys ≡ true → Subset xs ys × Subset ys xs
unfolding same_set
same_set→Subset xs ys d h =
    let e : length xs ≡ length ys = ground arith in
    let s : Subset xs ys = (all_in_iff xs ys).0 (ground arith) in (s, Subset_of_length xs ys d s e)

-- A set that has shrunk and is not the same has lost a key.
pub length-lt_of_not-same_set :
    (xs ys : StrSet) → IsDistinct xs → Subset xs ys → same_set xs ys ≡ false → length xs < length ys
unfolding same_set
length-lt_of_not-same_set xs ys d h n =
    ground (arith, length-le_of_Subset xs ys d h, (all_in_iff xs ys).1 h)

pub length-insert : (a : String) (xs : StrSet) → length (insert a xs) ≤ suc (length xs)
unfolding insert
length-insert a xs = ground arith
