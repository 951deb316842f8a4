-- ===== src/Ir/Binding.antt =====
-- core/internal/ir/ir.go: which parameters of a callee an argument binds (bindIndex, BoundParam,
-- BoundParams, Binds).
use sast_engine.Prelude.{
  ℕ, ◌≡◌, refl, Bool, false, not, ◌&&◌, ◌||◌, Option, none, some, List, [], ◌∷◌, if◌then◌else◌,
  same, nat_eq, arith,
}
use sast_engine.Ir.{Arg, Param}

unfoldable pub bind_index : Arg → ℕ
bind_index a = elim a.param_index [ some i ↦ i | none ↦ a.index ]

-- `BoundParam`, over the parameters of the callee; `none` is its answer false
unfoldable pub bound_param : Arg → List Param → Option Param
bound_param a [] = none
bound_param a (p ∷ ps) =
    let rest = bound_param a ps in
    if p.destructured
    then rest
    else if (not (same a.name "") && same p.name a.name)
        || (same a.name "" && nat_eq p.index (bind_index a))
    then some p
    else rest

-- `BoundParams`
unfoldable pub bound_params : Arg → List Param → List Param
bound_params a [] = []
bound_params a (p ∷ ps) =
    let rest = bound_params a ps in
    if not (same a.name "")
    then (if not p.destructured && same p.name a.name then p ∷ rest else rest)
    else if nat_eq p.index (bind_index a)
    then p ∷ rest
    else rest

unfoldable pub binds : Arg → List Param → ℕ → Bool
binds a ps index = elim (bound_param a ps) [ none ↦ false | some p ↦ nat_eq p.index index ]

-- the first that is no part of a destructuring pattern
unfoldable pub first_plain : List Param → Option Param
first_plain [] = none
first_plain (p ∷ ps) = let rest = first_plain ps in if p.destructured then rest else some p

-- BoundParam is the first of BoundParams that is no part of a destructuring pattern, and is false if
-- there is none.
bound_param-first : (a : Arg) (ps : List Param) → bound_param a ps ≡ first_plain (bound_params a ps)
unfolding bound_param bound_params first_plain
bound_param-first a [] = refl
bound_param-first a (p ∷ ps) = ground (arith, bound_param-first a ps)
