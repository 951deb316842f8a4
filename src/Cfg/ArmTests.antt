-- ===== src/Cfg/ArmTests.antt =====
-- The loops over the arms of a branch in SelectedBySuccessor and DependsOnSuccessor.
use sast_engine.Prelude.{
  ℕ, zero, suc, ◌+◌, String, ◌≡◌, refl, ◌∙◌, Bool, true, ◌||◌, some, List, [], ◌∷◌, same, arith,
  nat_eq, Bool-cases, inl, inr, ◌↔◌, get_elem?,
}
use sast_engine.Cfg.{Graph, successors}
use sast_engine.Cfg.Queries.{post_dominates, only_arm, reaches, no_other_arm}

-- A successor of a branch, by its position.
abbrev pub Arm : Graph → String → ℕ → String → Type 0
Arm g branch n s = get_elem? (successors g.blocks branch) n ≡ some s

abbrev pub gets : Graph → String → String → Bool
gets g target s = same s target || reaches g s target

pub only_arm_iff :
    (g : Graph) (target : String) (selected i : ℕ) (ss : List String)
    → (only_arm g target selected i ss ≡ true)
      ↔ ((n : ℕ) (s : String) → get_elem? ss n ≡ some s → gets g target s ≡ nat_eq (i + n) selected)
unfolding only_arm
only_arm_iff g target selected i [] = (λ h n s e. cc, λ h. refl)
only_arm_iff g target selected i (x ∷ ss) =
    let (to, from) = only_arm_iff g target selected (i + 1) ss in
    (
      λ h n s e. first_or_later n s e (ground arith) (to (ground arith)),
      λ h.
          let first : gets g target x ≡ nat_eq i selected = h zero x refl ∙ ground arith in
          let later = from (λ n s e. h (suc n) s e ∙ ground arith) in ground arith,
    )
  where
    first_or_later :
        (n : ℕ) (s : String)
        → get_elem? (x ∷ ss) n ≡ some s
        → gets g target x ≡ nat_eq i selected
        → ((n : ℕ) (s : String)
            → get_elem? ss n ≡ some s
            → gets g target s ≡ nat_eq (i + 1 + n) selected)
        → gets g target s ≡ nat_eq (i + n) selected
    first_or_later zero s e first later = ground arith
    first_or_later (suc n) s e first later = later n s e ∙ ground arith

pub no_other_arm_iff :
    (g : Graph) (block : String) (successor i : ℕ) (ss : List String)
    → (no_other_arm g block successor i ss ≡ true) ↔ (
        (n : ℕ) (s : String)
        → get_elem? ss n ≡ some s
        → post_dominates g block s ≡ true
        → i + n ≡ successor)
unfolding no_other_arm
no_other_arm_iff g block successor i [] = (λ h n s e p. cc, λ h. refl)
no_other_arm_iff g block successor i (x ∷ ss) =
    let (to, from) = no_other_arm_iff g block successor (i + 1) ss in
    (
      λ h n s e p. first_or_later n s e p (λ q. ground arith) (to (ground arith)),
      λ h. elim (Bool-cases (post_dominates g block x)) [
        | inl p ↦
            let first = h zero x refl p in
            let later = from (λ n s e q. omega (arith, h (suc n) s e q)) in ground arith
        | inr n ↦ let later = from (λ n s e q. omega (arith, h (suc n) s e q)) in ground arith
      ],
    )
  where
    first_or_later :
        (n : ℕ) (s : String)
        → get_elem? (x ∷ ss) n ≡ some s
        → post_dominates g block s ≡ true
        → (post_dominates g block x ≡ true → i ≡ successor)
        → ((n : ℕ) (s : String)
            → get_elem? ss n ≡ some s
            → post_dominates g block s ≡ true
            → i + 1 + n ≡ successor)
        → i + n ≡ successor
    first_or_later zero s e p first later =
        let p' : post_dominates g block x ≡ true = ground arith in omega (arith, first p')
    first_or_later (suc n) s e p first later = omega (arith, later n s e p)
