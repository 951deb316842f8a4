-- ===== src/Regex/Counts.antt =====
-- core/internal/model/regexparse.go: the quantity read from a brace allows every count that the
-- brace stands for.
use sast_engine.Prelude.{
  ℕ, zero, suc, ◌≤◌, ◌≡◌, refl, inl, inr, true, List, [], ◌∷◌, ◌++◌, none, some, arith, nat_eq,
  Bool-cases, Option-cases,
}
use sast_engine.Regex.Bytes.{comma, digit_zero, split_at}
use sast_engine.Regex.Quantifier.{atoi, brace_quantity, brace_can_repeat, starts_at_zero}
use sast_engine.Regex.Matching.{counts}

-- The text is the number, a zero being written with one digit.
abbrev pub Writes : List ℕ → ℕ → Type 0
Writes text n = (atoi text ≡ some n) × (n ≡ 0 → text ≡ digit_zero ∷ [])

-- The counts that `{m}`, `{m,}` and `{m,n}` stand for.
pub data Allows (body : List ℕ) (k : ℕ) : Type 0 where
  exactly : split_at comma body ≡ none → Writes body k → Allows body k
  from :
      (lo : List ℕ) (m : ℕ)
      → split_at comma body ≡ some (lo, [])
      → Writes lo m
      → m ≤ k
      → Allows body k
  between :
      (lo hi : List ℕ) (m n : ℕ)
      → split_at comma body ≡ some (lo, hi)
      → Writes lo m
      → Writes hi n
      → m ≤ k
      → k ≤ n
      → Allows body k

-- a body is what stands before its first comma, the comma, and the rest
split_at_lem :
    (b : ℕ) (body lo hi : List ℕ) → split_at b body ≡ some (lo, hi) → body ≡ lo ++ (b ∷ hi)
unfolding split_at
split_at_lem b [] lo hi e = absurd (ground arith)
split_at_lem b (c ∷ cs) lo hi e = elim (Bool-cases (nat_eq c b)) [
  | inl y ↦ ground (arith, e)
  | inr n ↦ elim (Option-cases (split_at b cs)) [
    | inl o ↦ absurd (ground (arith, e, o, n))
    | inr ((front, back), o) ↦ ground (arith, e, o, n, split_at_lem b cs front back o)
  ]
]

zero_lem :
    (body lo hi : List ℕ)
    → split_at comma body ≡ some (lo, hi)
    → lo ≡ digit_zero ∷ []
    → starts_at_zero body ≡ true
unfolding starts_at_zero
zero_lem body lo hi e z = rw (split_at_lem comma body lo hi e, z) refl

exact_repeat :
    (body : List ℕ) (n : ℕ)
    → split_at comma body ≡ none
    → atoi body ≡ some n
    → 2 ≤ n
    → brace_can_repeat body ≡ true
unfolding brace_can_repeat
exact_repeat body n e a h = rw (e, a, brace_can_repeat) (ground arith)

open_repeat :
    (body lo : List ℕ) → split_at comma body ≡ some (lo, []) → brace_can_repeat body ≡ true
unfolding brace_can_repeat
open_repeat body lo e = rw (e, brace_can_repeat) refl

range_repeat :
    (body lo hi : List ℕ) (n : ℕ)
    → split_at comma body ≡ some (lo, hi)
    → atoi hi ≡ some n
    → 2 ≤ n
    → brace_can_repeat body ≡ true
unfolding brace_can_repeat
range_repeat body lo [] n e a h = rw (e, brace_can_repeat) refl
range_repeat body lo (c ∷ hi) n e a h = rw (e, a, brace_can_repeat) (ground arith)

-- The quantity that is read from a brace allows every count that the brace stands for, provided that
-- a zero is written with one digit and no number is above the greatest int.
pub brace_quantity-Allows :
    (body : List ℕ) (k : ℕ) → Allows body k → counts (brace_quantity body) k ≡ true
unfolding counts brace_quantity starts_at_zero
brace_quantity-Allows body (suc zero) a = refl
brace_quantity-Allows body zero (exactly e (a, z)) = rw (z refl, starts_at_zero) refl
brace_quantity-Allows body zero (from lo m e (a, z) l) = zero_lem body lo [] e (z (omega arith))
brace_quantity-Allows body zero (between lo hi m n e (a, z) w l l') =
    zero_lem body lo hi e (z (omega arith))
brace_quantity-Allows body (suc (suc k)) (exactly e (a, z)) =
    exact_repeat body (suc (suc k)) e a (omega arith)
brace_quantity-Allows body (suc (suc k)) (from lo m e w l) = open_repeat body lo e
brace_quantity-Allows body (suc (suc k)) (between lo hi m n e w (a, z) l l') =
    range_repeat body lo hi n e a (omega arith)
