-- ===== src/CallGraph/Lookup.antt =====
-- What looking a function up by its name finds.
use sast_engine.Prelude.{
  String, ◌≡◌, inl, inr, true, none, some, List, [], ◌∷◌, Memᴰ, map, same, same_iff, Bool-cases,
  Option-cases, sym, ap, ◌∙◌, none-not-some, some-injective, contains, map-Memᴰ, subst,
  Memᴰ→contains,
}
use sast_engine.Ir.{Function}
use sast_engine.CallGraph.{func_by_id}

pub func_by_id-Memᴰ :
    (fns : List Function) (id : String) (fn : Function) → func_by_id fns id ≡ some fn → Memᴰ fn fns
unfolding func_by_id
func_by_id-Memᴰ [] id fn h = cc
func_by_id-Memᴰ (g ∷ fns) id fn h = elim (Option-cases (func_by_id fns id)) [
  | inr (later, e) ↦
      let eq : some later ≡ some fn = rw (e, func_by_id) at h in
      let eq' : later ≡ fn = cc in Memᴰ.tail (func_by_id-Memᴰ fns id fn (e ∙ ap some eq'))
  | inl e ↦ elim (Bool-cases (same g.id id)) [
    | inl s ↦
        let eq : some g ≡ some fn = rw (e, s, func_by_id) at h in
        let eq' : g ≡ fn = cc in Memᴰ.head (sym eq')
    | inr s ↦ let bad : none ≡ some fn = rw (e, s, func_by_id) at h in cc
  ]
]

pub func_by_id-id :
    (fns : List Function) (id : String) (fn : Function) → func_by_id fns id ≡ some fn → fn.id ≡ id
unfolding func_by_id
func_by_id-id [] id fn h = cc
func_by_id-id (g ∷ fns) id fn h = elim (Option-cases (func_by_id fns id)) [
  | inr (later, e) ↦
      let eq : some later ≡ some fn = rw (e, func_by_id) at h in func_by_id-id fns id fn (e ∙ eq)
  | inl e ↦ elim (Bool-cases (same g.id id)) [
    | inl s ↦
        let eq : some g ≡ some fn = rw (e, s, func_by_id) at h in
        ap (λ (w : Function). w.id) (sym (some-injective g fn eq)) ∙ (same_iff g.id id).0 s
    | inr s ↦ absurd (none-not-some fn (rw (e, s, func_by_id) at h))
  ]
]

-- the names of the functions
abbrev pub names_of : List Function → List String
names_of = map (λ (fn : Function). fn.id)

pub func_by_id-contains :
    (fns : List Function) (id : String) (fn : Function)
    → func_by_id fns id ≡ some fn
    → contains (names_of fns) id ≡ true
func_by_id-contains fns id fn h = Memᴰ→contains (names_of fns) id (
    subst (λ k. Memᴰ k (names_of fns)) (func_by_id-id fns id fn h)
      (map-Memᴰ (λ (fn : Function). fn.id) fns fn (func_by_id-Memᴰ fns id fn h)))
