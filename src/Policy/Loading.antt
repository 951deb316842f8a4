-- ===== src/Policy/Loading.antt =====
-- core/internal/policy/policy.go: Load accepts exactly the policies in which every declaration says what it
-- selects and why.
use sast_engine.Prelude.{
  ℕ, suc, String, ◌≡◌, ◌↔◌, refl, inl, inr, true, false, ◌||◌, none, some, List, [], ◌∷◌, same,
  arith, Bool-cases, Option-cases, Memᴰ, sym, ◌∙◌, subst, none-not-some,
}
use mathlib.Core.List.Memᴰ.{cases_cons, not-nil}
use sast_engine.Policy.{
  EntryPointRule, ControlDeclaration, Policy, selects_nothing, is_blank, loaded, check_rules,
  check_controls, is_supported, load,
}

-- what a declaration has to say
abbrev pub IsStated : EntryPointRule → Type 0
IsStated r = (selects_nothing r.match ≡ false) × (is_blank r.reason ≡ false)

abbrev pub IsNamed : ControlDeclaration → Type 0
IsNamed c = (same c.name "" ≡ false) × (same c.kind "" ≡ false) × (is_blank c.reason ≡ false)

check_rules_iff :
    (i : ℕ) (rs : List EntryPointRule)
    → (check_rules i rs ≡ none) ↔ ((r : EntryPointRule) → Memᴰ r rs → IsStated r)
unfolding check_rules
check_rules_iff i [] = (λ _ r m. absurd (not-nil m), λ _. refl)
check_rules_iff i (r ∷ rs) = elim (Bool-cases (selects_nothing r.match)) [
  | inl nothing ↦ (
    λ e. let bad = rw (nothing, check_rules) at e in cc,
    λ h. let s = (h r (Memᴰ.head refl)).0 in cc,
  )
  | inr something ↦ elim (Bool-cases (is_blank r.reason)) [
    | inl blank ↦ (
      λ e. let bad = rw (something, blank, check_rules) at e in cc,
      λ h. let s = (h r (Memᴰ.head refl)).1 in cc,
    )
    | inr reason ↦
        let rest = check_rules_iff (suc i) rs in
        (
          λ e q m. elim (cases_cons m) [
            | inl eq ↦ subst IsStated (sym eq) (something, reason)
            | inr n ↦ rest.0 (rw (something, reason, check_rules) at e) q n
          ],
          λ h. rw (something, reason, check_rules) (rest.1 (λ q m. h q (Memᴰ.tail m))),
        )
  ]
]

check_controls_iff :
    (i : ℕ) (cs : List ControlDeclaration)
    → (check_controls i cs ≡ none) ↔ ((c : ControlDeclaration) → Memᴰ c cs → IsNamed c)
unfolding check_controls
check_controls_iff i [] = (λ _ r m. absurd (not-nil m), λ _. refl)
check_controls_iff i (c ∷ cs) = elim (Bool-cases (same c.name "" || same c.kind "")) [
  | inl nameless ↦ (
    λ e. let bad = rw (nameless, check_controls) at e in cc,
    λ h. let (a, b, d) = h c (Memᴰ.head refl) in absurd (ground (arith, nameless, a, b)),
  )
  | inr named ↦ elim (Bool-cases (is_blank c.reason)) [
    | inl blank ↦ (
      λ e. let bad = rw (named, blank, check_controls) at e in cc,
      λ h. let (a, b, d) = h c (Memᴰ.head refl) in cc,
    )
    | inr reason ↦
        let rest = check_controls_iff (suc i) cs in
        (
          λ e q m. elim (cases_cons m) [
            | inl eq ↦ subst IsNamed (sym eq) (ground (arith, named), ground (arith, named), reason)
            | inr n ↦ rest.0 (rw (named, reason, check_controls) at e) q n
          ],
          λ h. rw (named, reason, check_controls) (rest.1 (λ q m. h q (Memᴰ.tail m))),
        )
  ]
]

-- A policy is accepted exactly if its version is the one supported, every rule selects something and has
-- a reason, and every control has a name, a kind and a reason; it is kept as it was read, with the path.
pub load_iff :
    (p : Policy) (path : String)
    → (load (some p) path ≡ loaded record p { path = path; present = true }) ↔ (
        (is_supported p.version ≡ true)
        × ((r : EntryPointRule) → Memᴰ r p.entry_points → IsStated r)
        × ((c : ControlDeclaration) → Memᴰ c p.controls → IsNamed c))
unfolding load
load_iff p path = elim (Bool-cases (is_supported p.version)) [
  | inr other ↦ (λ e. let bad = rw (other, load) at e in cc, λ (s, _, _). cc)
  | inl supported ↦ elim (Option-cases (check_rules 0 p.entry_points)) [
    | inr (x, e) ↦ (
      λ h. let bad = rw (supported, e, load) at h in cc,
      λ (_, r, _). absurd (none-not-some x (sym ((check_rules_iff 0 p.entry_points).1 r) ∙ e)),
    )
    | inl rules ↦ elim (Option-cases (check_controls 0 p.controls)) [
      | inr (x, e) ↦ (
        λ h. let bad = rw (supported, rules, e, load) at h in cc,
        λ (_, _, c). absurd (none-not-some x (sym ((check_controls_iff 0 p.controls).1 c) ∙ e)),
      )
      | inl controls ↦ (
        λ _. (
          supported,
          (check_rules_iff 0 p.entry_points).0 rules,
          (check_controls_iff 0 p.controls).0 controls,
        ),
        λ _. rw (supported, rules, controls, load) refl,
      )
    ]
  ]
]
