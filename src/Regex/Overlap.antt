-- ===== src/Regex/Overlap.antt =====
-- core/internal/model/regexparse.go: what overlaps decides.
use sast_engine.Prelude.{
  ℕ, zero, suc, ◌<◌, ◌≡◌, refl, subst, ◌⊎◌, inl, inr, ◌↔◌, Bool, true, ◌&&◌, Bool-cases, arith, ltb,
}
use sast_engine.Regex.{CharSet}
use sast_engine.Regex.Matching.{in_set}
use sast_engine.Regex.Adjacent.{any_below, overlaps}

lt-cases : (k n : ℕ) → k < suc n → (k < n) ⊎ (k ≡ n)
lt-cases k n l = elim (Bool-cases (ltb k n)) [
  | inl y ↦ inl (ground arith)
  | inr o ↦ inr (ground arith)
]

pub any_below_iff :
    (n : ℕ) (p : ℕ → Bool) → (any_below n p ≡ true) ↔ ((k : ℕ) × (k < n) × (p k ≡ true))
unfolding any_below
any_below_iff zero p = (λ e. absurd (ground arith), λ (k, l, e). absurd (omega arith))
any_below_iff (suc n) p = elim (Bool-cases (p n)) [
  | inl y ↦ (λ e. (n, omega arith, y), λ r. rw y refl)
  | inr o ↦ (
    λ e. let (k, l, h) = (any_below_iff n p).0 (ground arith) in (k, omega arith, h),
    λ (k, l, h). elim (lt-cases k n l) [
      | inl l' ↦ ground (arith, (any_below_iff n p).1 (k, l', h))
      | inr e ↦ let h' : p n ≡ true = subst (λ x. p x ≡ true) e h in absurd (ground arith)
    ],
  )
]

-- Two sets overlap exactly if some character is in both.
pub overlaps_iff :
    (s o : CharSet) → (overlaps s o ≡ true) ↔ ((c : ℕ) × (in_set s c ≡ true) × (in_set o c ≡ true))
unfolding overlaps in_set
overlaps_iff s o = (
  λ e. elim (Bool-cases (s.non_ascii && o.non_ascii)) [
    | inl y ↦ (128, ground arith, ground arith)
    | inr n ↦
        let (k, l, h) = (any_below_iff 128 (λ c. s.ascii c && o.ascii c)).0 (ground arith) in
        (k, ground arith, ground arith)
  ],
  λ (c, i, j). elim (Bool-cases (ltb c 128)) [
    | inl y ↦
        ground (
          arith,
          (any_below_iff 128 (λ k. s.ascii k && o.ascii k)).1 (c, ground arith, ground arith),
        )
    | inr n ↦ ground arith
  ],
)
