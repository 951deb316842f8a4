-- ===== src/Prelude/Sets.antt =====
-- Go's `map[string]bool` as a set: the list of its keys, without repetition.
use sast_engine.Prelude.Tests.{same, same_iff, same_self, Bool-cases, if◌then◌else◌}
use Prim.Native.String.{String}
use mathlib.Core.Path.{◌≡◌, refl}
use mathlib.Core.Logic.{◌↔◌, inl, inr}
use mathlib.Core.Bool.{Bool, true, false, ◌&&◌, ◌||◌}
use mathlib.Core.List.{List, [], ◌∷◌, ◌++◌}
use native.Mathlib.Omega.{arith}

abbrev pub StrSet : Type 0
StrSet = List String

unfoldable pub contains : StrSet → String → Bool
contains [] a = false
contains (x ∷ xs) a = if same x a then true else contains xs a

-- `set[a] = true`
unfoldable pub insert : String → StrSet → StrSet
unfolding contains
insert a xs = if contains xs a then xs else a ∷ xs

-- the loop that deletes the keys which fail a test
unfoldable pub keep : (String → Bool) → StrSet → StrSet
keep p [] = []
keep p (x ∷ xs) = let rest = keep p xs in if p x then x ∷ rest else rest

unfoldable pub all_in : StrSet → StrSet → Bool
all_in [] ys = true
all_in (x ∷ xs) ys = contains ys x && all_in xs ys

abbrev pub IsDistinct : StrSet → Type 0
IsDistinct [] = Unit
IsDistinct (x ∷ xs) = (contains xs x ≡ false) × IsDistinct xs

-- Every key of the first is one of the second.
abbrev pub Subset : StrSet → StrSet → Type 0
Subset xs ys = (k : String) → contains xs k ≡ true → contains ys k ≡ true

pub contains-insert :
    (a : String) (xs : StrSet) (k : String)
    → contains (insert a xs) k ≡ (if same a k then true else contains xs k)
unfolding insert contains
contains-insert a xs k = ground (arith, same_iff a k)

pub contains-keep :
    (p : String → Bool) (xs : StrSet) (k : String) → contains (keep p xs) k ≡ (contains xs k && p k)
unfolding contains keep
contains-keep p [] k = refl
contains-keep p (x ∷ xs) k = ground (arith, same_iff x k, contains-keep p xs k)

pub contains-append :
    (xs ys : StrSet) (k : String) → contains (xs ++ ys) k ≡ (contains xs k || contains ys k)
unfolding contains
contains-append [] ys k = refl
contains-append (x ∷ xs) ys k = ground (arith, contains-append xs ys k)

pub contains-head : (k : String) (xs : StrSet) → contains (k ∷ xs) k ≡ true
unfolding contains
contains-head k xs = ground (arith, same_self k)

pub contains-tail :
    (x : String) (xs : StrSet) (k : String) → contains xs k ≡ true → contains (x ∷ xs) k ≡ true
unfolding contains
contains-tail x xs k h = ground arith

pub insert-IsDistinct : (a : String) (xs : StrSet) → IsDistinct xs → IsDistinct (insert a xs)
unfolding insert
insert-IsDistinct a xs d = ground arith

pub keep-IsDistinct : (p : String → Bool) (xs : StrSet) → IsDistinct xs → IsDistinct (keep p xs)
unfolding keep
keep-IsDistinct p [] d = tt
keep-IsDistinct p (x ∷ xs) d = ground (arith, keep-IsDistinct p xs d.1, contains-keep p xs x)

pub all_in_iff : (xs ys : StrSet) → (all_in xs ys ≡ true) ↔ Subset xs ys
unfolding contains all_in
all_in_iff [] ys = (λ h k e. cc, λ h. refl)
all_in_iff (x ∷ xs) ys = (
  λ h k e.
      ground (arith, same_iff x k, (all_in_iff xs ys).0, (all_in_iff xs ys).0 (ground arith) k),
  λ h. ground (arith, h x, same_self x, (all_in_iff xs ys).1 (λ k e. h k (ground arith))),
)

-- Some element passes the test.
unfoldable pub any : (String → Bool) → List String → Bool
any p [] = false
any p (x ∷ xs) = if p x then true else any p xs

pub any_iff :
    (p : String → Bool) (xs : List String)
    → (any p xs ≡ true) ↔ ((k : String) × (contains xs k ≡ true) × (p k ≡ true))
unfolding any contains
any_iff p [] = (λ h. cc, λ (k, m, e). cc)
any_iff p (x ∷ xs) = (
  λ h. elim (Bool-cases (p x)) [
    | inl e ↦ (x, contains-head x xs, e)
    | inr n ↦ let (k, m, e) = (any_iff p xs).0 (ground arith) in (k, contains-tail x xs k m, e)
  ],
  λ (k, m, e). elim (Bool-cases (p x)) [
    | inl f ↦ rw f refl
    | inr f ↦ rw f ((any_iff p xs).1 (k, ground (arith, same_iff x k), e))
  ],
)
