-- ===== src/Taint/Inward.antt =====
-- core/internal/taint/taint.go: the parameter that taintEnteredViaParam names leads to the value.
use sast_engine.Prelude.{
  ℕ, zero, suc, String, ◌≡◌, refl, inl, inr, ◌||◌, some, List, [], ◌∷◌, Memᴰ, StrSet, contains,
  insert, same, same_iff, Bool-cases, Option-cases, none-not-some, some-injective, subst, sym, ap,
  ◌∙◌, List-cases,
}
use sast_engine.Ir.{Function, Param}
use sast_engine.Taint.{Engine, State}
use sast_engine.Taint.Entered.{param_index, entered_within, taint_entered_via_param}
use sast_engine.Taint.Leads.{LeadsOn, here, on}
use sast_engine.Taint.Moves.{IsKeptLed}

-- A parameter at a position leads to a value.
abbrev pub EntersAt : Engine → List Param → ℕ → String → Type 0
EntersAt e ps index id = (p : Param) × Memᴰ p ps × (p.index ≡ index) × LeadsOn e p.value_id id

param_index_lem :
    (ps : List Param) (id : String) (index : ℕ)
    → param_index ps id ≡ some index
    → (p : Param) × Memᴰ p ps × (p.index ≡ index) × (p.value_id ≡ id)
unfolding param_index
param_index_lem [] id index h = cc
param_index_lem (p ∷ ps) id index h = elim (Option-cases (param_index ps id)) [
  | inr (later, e) ↦
      let eq : some later ≡ some index = rw (e, param_index) at h in
      let (q, m, i, v) = param_index_lem ps id index (e ∙ eq) in (q, Memᴰ.tail m, i, v)
  | inl e ↦ elim (Bool-cases (same p.value_id id)) [
    | inl s ↦
        let eq : some p.index ≡ some index = rw (e, s, param_index) at h in
        (p, Memᴰ.head refl, some-injective p.index index eq, (same_iff p.value_id id).0 s)
    | inr s ↦ absurd (none-not-some index (rw (e, s, param_index) at h))
  ]
]

-- The walk finds nothing behind a source.
from_nowhere :
    (ps : List Param) (st : State) (hops : ℕ) (seen : StrSet) (at : String) (index : ℕ)
    → ¬ (entered_within hops ps st seen "" ≡ some (at, index))
unfolding entered_within same
from_nowhere ps st zero seen at index h = none-not-some (at, index) h
from_nowhere ps st (suc hops) seen at index h = none-not-some (at, index) h

module _ (e : Engine) (ps : List Param) (st : State) (led : IsKeptLed e st) where
  entered_within-EntersAt :
      (hops : ℕ) (seen : StrSet) (cur at : String) (index : ℕ)
      → entered_within hops ps st seen cur ≡ some (at, index)
      → EntersAt e ps index cur
  unfolding entered_within
  entered_within-EntersAt zero seen cur at index h = cc
  entered_within-EntersAt (suc hops) seen cur at index h =
      elim (Bool-cases (same cur "" || contains seen cur)) [
        | inl old ↦ absurd (none-not-some (at, index) (rw (old, entered_within) at h))
        | inr new ↦ elim (Option-cases (param_index ps cur)) [
          | inr (i, e') ↦
              let (p, m, j, v) = param_index_lem ps cur i e' in
              let same_place : i ≡ index = elim (Option-cases (st.pred cur)) [
                | inl n ↦
                    let eq : some ("", i) ≡ some (at, index) =
                      rw (new, e', n, entered_within) at h in
                    ap (λ (w : String × ℕ). w.1) (some-injective ("", i) (at, index) eq)
                | inr (edge, n) ↦
                    let eq : some (edge.site, i) ≡ some (at, index) =
                      rw (new, e', n, entered_within) at h in
                    ap (λ (w : String × ℕ). w.1) (some-injective (edge.site, i) (at, index) eq)
              ] in
              (
                p,
                m,
                subst (λ n. p.index ≡ n) same_place j,
                subst (LeadsOn e p.value_id) v (here p.value_id),
              )
          | inl e' ↦ elim (Option-cases (st.pred cur)) [
            | inl n ↦ absurd (none-not-some (at, index) (rw (new, e', n, entered_within) at h))
            | inr (edge, n) ↦
                let h' : entered_within hops ps st (insert cur seen) edge.from ≡ some (at, index) =
                  rw (new, e', n, entered_within) at h in
                elim (led cur edge n) [
                  | inl nowhere ↦ absurd (
                      from_nowhere ps st hops (insert cur seen) at index (
                        subst
                          (λ w. entered_within hops ps st (insert cur seen) w ≡ some (at, index))
                          nowhere h'))
                  | inr l ↦
                      let (p, m, j, o) =
                        entered_within-EntersAt hops (insert cur seen) edge.from at index h' in
                      (p, m, j, on p.value_id edge.from cur o l)
                ]
          ]
        ]
      ]

  pub taint_entered_via_param_lem :
      (fn : Function) (id at : String) (index : ℕ)
      → fn.params ≡ ps
      → taint_entered_via_param fn id st ≡ some (at, index)
      → EntersAt e ps index id
  unfolding taint_entered_via_param
  taint_entered_via_param_lem fn id at index same_params h = elim (List-cases fn.params) [
    | inl n ↦ absurd (none-not-some (at, index) (rw (n, taint_entered_via_param) at h))
    | inr (p, rest, n) ↦
        let h' : entered_within 64 (p ∷ rest) st [] id ≡ some (at, index) =
          rw (n, taint_entered_via_param) at h in
        entered_within-EntersAt 64 [] id at index
          (subst (λ qs. entered_within 64 qs st [] id ≡ some (at, index)) (sym n ∙ same_params) h')
  ]
