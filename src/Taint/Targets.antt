-- ===== src/Taint/Targets.antt =====
-- core/internal/taint/taint.go: the values that the hops of a program can reach.
use sast_engine.Prelude.{
  ℕ, String, ◌≡◌, inl, inr, Bool, not, ◌&&◌, some, List, [], ◌∷◌, ◌++◌, map, Memᴰ, gather, same,
  nat_eq, if◌then◌else◌, Bool-cases, Option-cases, select, Memᴰ-gather, Memᴰ-select, gather-Memᴰ,
  map-Memᴰ, subst, sym, ◌∙◌, ap, none-not-some, some-injective, none-not-some, some-injective,
}
use mathlib.Core.List.Memᴰ.{append_left, append_right, cases_cons, not-nil}
use sast_engine.Ir.{Function, Flow, Call, Arg, Param}
use sast_engine.Ir.Binding.{bound_params, bind_index}
use sast_engine.CallGraph.{func_by_id}
use sast_engine.CallGraph.Lookup.{func_by_id-Memᴰ}
use sast_engine.Taint.{Engine, ResolveTarget}
use sast_engine.Taint.Rules.{callback_for}
use sast_engine.Taint.Index.{
  flows_from, call_sites_of, arg_uses, receiver_uses, used_in, param_at, arg_at,
}
use sast_engine.Taint.Propagate.{callback_target}
use sast_engine.Taint.Leads.{
  Leads, flow, argument, property, resolved, through, callback, received, returned, answered,
}

-- the targets of the hops within one function
unfoldable pub function_targets : Engine → Function → List String
function_targets e fn =
    map (λ (f : Flow). f.to) fn.flows
    ++ (map (λ (p : Param). p.value_id) fn.params
        ++ (map (λ (c : Call). c.result_id) fn.calls
            ++ gather (λ (c : Call). map (λ (t : ResolveTarget). t.result_id) (e.resolves c.id))
                fn.calls))

unfoldable pub targets : Engine → List String
targets e = gather (function_targets e) e.functions

bound_params-Memᴰ : (a : Arg) (ps : List Param) (p : Param) → Memᴰ p (bound_params a ps) → Memᴰ p ps
unfolding bound_params
bound_params-Memᴰ a [] p m = absurd (not-nil m)
bound_params-Memᴰ a (q ∷ ps) p m =
    let taken : Memᴰ p (q ∷ bound_params a ps) → Memᴰ p (q ∷ ps) = λ n. elim (cases_cons n) [
      | inl h ↦ Memᴰ.head h
      | inr r ↦ Memᴰ.tail (bound_params-Memᴰ a ps p r)
    ] in
    elim (Bool-cases (not (same a.name ""))) [
      | inl named ↦ elim (Bool-cases (not q.destructured && same q.name a.name)) [
        | inl t ↦ taken (rw (named, t, bound_params) at m)
        | inr t ↦ Memᴰ.tail (bound_params-Memᴰ a ps p (rw (named, t, bound_params) at m))
      ]
      | inr bare ↦ elim (Bool-cases (nat_eq q.index (bind_index a))) [
        | inl t ↦ taken (rw (bare, t, bound_params) at m)
        | inr t ↦ Memᴰ.tail (bound_params-Memᴰ a ps p (rw (bare, t, bound_params) at m))
      ]
    ]

param_at-Memᴰ : (ps : List Param) (index : ℕ) (p : Param) → param_at ps index ≡ some p → Memᴰ p ps
unfolding param_at
param_at-Memᴰ [] index p h = cc
param_at-Memᴰ (q ∷ ps) index p h = elim (Bool-cases (nat_eq q.index index)) [
  | inl t ↦
      let eq : some q ≡ some p = rw (t, param_at) at h in
      let eq' : q ≡ p = cc in Memᴰ.head (sym eq')
  | inr t ↦ Memᴰ.tail (param_at-Memᴰ ps index p (rw (t, param_at) at h))
]

module _ (e : Engine) where
  -- What is a target within a function of the program is one of the program.
  within :
      (fn : Function) (y : String)
      → Memᴰ fn e.functions
      → Memᴰ y (function_targets e fn)
      → Memᴰ y (targets e)
  unfolding targets
  within fn y m n = gather-Memᴰ (function_targets e) e.functions fn y m n

  flow-target : (fn : Function) (f : Flow) → Memᴰ f fn.flows → Memᴰ f.to (function_targets e fn)
  unfolding function_targets
  flow-target fn f m = append_left _ (map-Memᴰ (λ (f : Flow). f.to) fn.flows f m)

  param-target :
      (fn : Function) (p : Param) → Memᴰ p fn.params → Memᴰ p.value_id (function_targets e fn)
  unfolding function_targets
  param-target fn p m =
      append_right (map (λ (f : Flow). f.to) fn.flows)
        (append_left _ (map-Memᴰ (λ (p : Param). p.value_id) fn.params p m))

  result-target :
      (fn : Function) (c : Call) → Memᴰ c fn.calls → Memᴰ c.result_id (function_targets e fn)
  unfolding function_targets
  result-target fn c m = append_right (map (λ (f : Flow). f.to) fn.flows) (
      append_right (map (λ (p : Param). p.value_id) fn.params)
        (append_left _ (map-Memᴰ (λ (c : Call). c.result_id) fn.calls c m)))

  promise-target :
      (fn : Function) (c : Call) (t : ResolveTarget)
      → Memᴰ c fn.calls
      → Memᴰ t (e.resolves c.id)
      → Memᴰ t.result_id (function_targets e fn)
  unfolding function_targets
  promise-target fn c t m n = append_right (map (λ (f : Flow). f.to) fn.flows) (
      append_right (map (λ (p : Param). p.value_id) fn.params) (
        append_right (map (λ (c : Call). c.result_id) fn.calls) (
          gather-Memᴰ (λ (c : Call). map (λ (t : ResolveTarget). t.result_id) (e.resolves c.id))
            fn.calls c t.result_id m
            (map-Memᴰ (λ (t : ResolveTarget). t.result_id) (e.resolves c.id) t n))))

  used_in-Memᴰ : (x : String) (d c : Call) → Memᴰ c (used_in x d) → c ≡ d
  unfolding used_in
  used_in-Memᴰ x d c m =
      let (a, n, k) =
        Memᴰ-gather
          (λ (a : Arg). if not (same a.value_id "") && same a.value_id x then d ∷ [] else []) d.args
          c m in
      elim (Bool-cases (not (same a.value_id "") && same a.value_id x)) [
        | inl go ↦
            let k' : Memᴰ c (d ∷ []) = rw go at k in
            elim (cases_cons k') [ inl h ↦ h | inr r ↦ absurd (not-nil r) ]
        | inr stop ↦ let k' : Memᴰ c [] = rw stop at k in absurd (not-nil k')
      ]

  -- the function of a call site that the lists of uses name
  arg_uses-Memᴰ :
      (x : String) (c : Call)
      → Memᴰ c (arg_uses e.functions x)
      → (fn : Function) × Memᴰ fn e.functions × Memᴰ c fn.calls
  unfolding arg_uses
  arg_uses-Memᴰ x c m =
      let (fn, n, k) =
        Memᴰ-gather (λ (fn : Function). gather (used_in x) fn.calls) e.functions c m in
      let (d, k', u) = Memᴰ-gather (used_in x) fn.calls c k in
      (fn, n, subst (λ w. Memᴰ w fn.calls) (sym (used_in-Memᴰ x d c u)) k')

  callback_target-Memᴰ :
      (c : Call) (p : Param) (note : String)
      → callback_target e c ≡ some (p, note)
      → (fn : Function) × Memᴰ fn e.functions × Memᴰ p fn.params
  unfolding callback_target
  callback_target-Memᴰ c p note h = elim (Option-cases (callback_for e.model.callbacks c.method)) [
    | inl n ↦ absurd (none-not-some (p, note) (rw (n, callback_target) at h))
    | inr (rule, r) ↦ elim (Option-cases (arg_at c.args rule.callback_arg)) [
      | inl n ↦ absurd (none-not-some (p, note) (rw (r, n, callback_target) at h))
      | inr (arg, a) ↦ elim (Bool-cases (same arg.function_id "")) [
        | inl n ↦ absurd (none-not-some (p, note) (rw (r, a, n, callback_target) at h))
        | inr f ↦ elim (Option-cases (func_by_id e.functions arg.function_id)) [
          | inl n ↦ absurd (none-not-some (p, note) (rw (r, a, f, n, callback_target) at h))
          | inr (fn, g) ↦ elim (Option-cases (param_at fn.params rule.callback_param)) [
            | inl n ↦ absurd (none-not-some (p, note) (rw (r, a, f, g, n, callback_target) at h))
            | inr (q, i) ↦
                let eq : some (q, rule.note) ≡ some (p, note) =
                  rw (r, a, f, g, i, callback_target) at h in
                let eq' : q ≡ p =
                  ap (λ (w : Param × String). w.0) (some-injective (q, rule.note) (p, note) eq) in
                (
                  fn,
                  func_by_id-Memᴰ e.functions arg.function_id fn g,
                  param_at-Memᴰ fn.params rule.callback_param p (i ∙ ap some eq'),
                )
          ]
        ]
      ]
    ]
  ]

  site-target :
      (id : String) (site : Call)
      → Memᴰ site (call_sites_of e.functions id)
      → Memᴰ site.result_id (targets e)
  unfolding call_sites_of
  site-target id site m =
      let p : Call → Bool = λ c.
        same c.callee.kind "local"
        && not (same c.callee.function_id "")
        && same c.callee.function_id id in
      let (fn, n, k) = Memᴰ-gather (λ (fn : Function). select p fn.calls) e.functions site m in
      within fn site.result_id n (result-target fn site (Memᴰ-select p fn.calls site k).0)

  -- Every hop ends in one of the targets.
  pub Leads→targets : (x y : String) → Leads e x y → Memᴰ y (targets e)
  unfolding flows_from receiver_uses call_sites_of
  Leads→targets x _ (flow _ f m) =
      let (fn, n, k) =
        Memᴰ-gather (λ (fn : Function). select (λ (f : Flow). same f.from x) fn.flows) e.functions f
          m in
      within fn f.to n (flow-target fn f (Memᴰ-select (λ (f : Flow). same f.from x) fn.flows f k).0)
  Leads→targets x _ (argument _ c a callee p m n v l known k) =
      within callee p.value_id (func_by_id-Memᴰ e.functions c.callee.function_id callee known)
        (param-target callee p (bound_params-Memᴰ a callee.params p k))
  Leads→targets x _ (property _ u callee p m known k d s) =
      within callee p.value_id (func_by_id-Memᴰ e.functions u.call.callee.function_id callee known)
        (param-target callee p (bound_params-Memᴰ u.arg callee.params p k))
  Leads→targets x _ (resolved _ c a t m k v l n i) =
      let (fn, known, w) = arg_uses-Memᴰ x c m in
      within fn t.result_id known (promise-target fn c t w n)
  Leads→targets x _ (through _ c m outside r n s) =
      let (fn, k, l) = arg_uses-Memᴰ x c m in within fn c.result_id k (result-target fn c l)
  Leads→targets x _ (callback _ c p note m h) =
      let (fn, k, l) = callback_target-Memᴰ c p note h in
      within fn p.value_id k (param-target fn p l)
  Leads→targets x _ (received _ c m outside named) =
      let (fn, n, k) =
        Memᴰ-gather
          (λ (fn : Function).
            select (λ (c : Call). not (same c.receiver_id "") && same c.receiver_id x) fn.calls)
          e.functions c m in
      within fn c.result_id n (
        result-target fn c
          (Memᴰ-select (λ (c : Call). not (same c.receiver_id "") && same c.receiver_id x) fn.calls
            c k).0)
  Leads→targets x _ (returned _ fn site o r m n) = site-target fn.id site m
  Leads→targets x _ (answered _ id fn site a p o r m s n v k b l) = site-target fn.id site m
