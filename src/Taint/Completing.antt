-- ===== src/Taint/Completing.antt =====
-- core/internal/taint/taint.go: what resolveTargets finds, and that it misses no call of a continuation
-- in the executor itself.
use sast_engine.Prelude.{
  String, ◌≡◌, inl, inr, true, false, some, List, [], Memᴰ, same, each, each-induction,
  each-reaches, Bool-cases, Option-cases, none-not-some,
}
use mathlib.Core.List.Memᴰ.{not-nil}
use sast_engine.Ir.{Function, Call}
use sast_engine.CallGraph.Lookup.{func_by_id-Memᴰ}
use sast_engine.Taint.{ResolveTarget}
use sast_engine.Taint.Rules.{Model, CallbackRule, resolver_for}
use sast_engine.Taint.Index.{arg_at}
use sast_engine.Taint.Resolve.{
  Targets, bind_resolver, target_of, executor_of, continuation_of, resolve_call, resolve_targets,
  is_continuation,
}
use sast_engine.Taint.Promises.{Continues, bind_resolver-found}
use sast_engine.Taint.Recalled.{bind_resolver-keeps, bind_resolver-finds}

-- A call makes a promise, by a rule of the model, with an executor that binds its continuation.
pub record Makes (fns : List Function) (rules : List CallbackRule) (c : Call) (exec : Function)
    (name : String) (t : ResolveTarget) : Type 0 where
  pub rule : CallbackRule
  pub chosen : resolver_for rules c.callee.symbol c.method ≡ some rule
  pub kept : same c.result_id "" ≡ false
  pub handed : executor_of fns c rule ≡ some exec
  pub bound : continuation_of exec rule ≡ some name
  pub target : t ≡ target_of c rule

-- The call with that name completes a promise of the program.
pub record Completes (fns : List Function) (rules : List CallbackRule) (id : String)
    (t : ResolveTarget) : Type 0 where
  pub owner : Function
  pub known : Memᴰ owner fns
  pub maker : Call
  pub written : Memᴰ maker owner.calls
  pub exec : Function
  pub name : String
  pub makes : Makes fns rules maker exec name t
  pub continued : Continues fns exec name id

executor_of-Memᴰ :
    (fns : List Function) (c : Call) (rule : CallbackRule) (exec : Function)
    → executor_of fns c rule ≡ some exec
    → Memᴰ exec fns
unfolding executor_of
executor_of-Memᴰ fns c rule exec h = elim (Option-cases (arg_at c.args rule.callback_arg)) [
  | inl e ↦ absurd (none-not-some exec (rw (e, executor_of) at h))
  | inr (arg, e) ↦ elim (Bool-cases (same arg.function_id "")) [
    | inl s ↦ absurd (none-not-some exec (rw (e, s, executor_of) at h))
    | inr s ↦ func_by_id-Memᴰ fns arg.function_id exec (rw (e, s, executor_of) at h)
  ]
]

module _ (fns : List Function) (m : Model) where
  -- Every target that is found completes a promise.
  abbrev AllComplete : Targets → Type 0
  AllComplete out =
      (id : String) (u : ResolveTarget) → Memᴰ u (out id) → Completes fns m.callbacks id u

  resolve_call-AllComplete :
      (fn : Function) (c : Call) (out : Targets)
      → Memᴰ fn fns
      → Memᴰ c fn.calls
      → AllComplete out
      → AllComplete (resolve_call fns m.callbacks c out)
  unfolding resolve_call
  resolve_call-AllComplete fn c out k w all =
      elim (Option-cases (resolver_for m.callbacks c.callee.symbol c.method)) [
        | inl e ↦ rw (e, resolve_call) all
        | inr (rule, e) ↦ elim (Bool-cases (same c.result_id "")) [
          | inl s ↦ rw (e, s, resolve_call) all
          | inr s ↦ elim (Option-cases (executor_of fns c rule)) [
            | inl x ↦ rw (e, s, x, resolve_call) all
            | inr (exec, x) ↦ elim (Option-cases (continuation_of exec rule)) [
              | inl n ↦ rw (e, s, x, n, resolve_call) all
              | inr (name, n) ↦
                  let found : AllComplete (bind_resolver fns exec name (target_of c rule) out) =
                    λ id u i.
                      elim (bind_resolver-found fns exec name (target_of c rule) out
                        (executor_of-Memᴰ fns c rule exec x) id u i) [
                          | inl old ↦ all id u old
                          | inr (h, continued) ↦ record {
                            owner = fn;
                            known = k;
                            maker = c;
                            written = w;
                            exec = exec;
                            name = name;
                            makes = record {
                              rule = rule;
                              chosen = e;
                              kept = s;
                              handed = x;
                              bound = n;
                              target = h;
                            };
                            continued = continued;
                          }
                        ] in
                  rw (e, s, x, n, resolve_call) found
            ]
          ]
        ]
      ]

  -- Every call that resolveTargets finds is written as the continuation of an executor that a call of
  -- the program hands to a maker of promises, where that continuation is in scope; and the target is
  -- the promise of that call.
  pub resolve_targets_sound :
      (id : String) (t : ResolveTarget)
      → Memᴰ t (resolve_targets fns m id)
      → Completes fns m.callbacks id t
  unfolding resolve_targets
  resolve_targets_sound =
      each-induction AllComplete (λ (fn : Function). each (resolve_call fns m.callbacks) fn.calls)
        fns (λ id. [])
        (λ fn out k all.
          each-induction AllComplete (resolve_call fns m.callbacks) fn.calls out
            (λ c o w a. resolve_call-AllComplete fn c o k w a) all)
        (λ id t i. absurd (not-nil i))

  resolve_call-keeps :
      (id : String) (u : ResolveTarget) (c : Call) (out : Targets)
      → Memᴰ u (out id)
      → Memᴰ u (resolve_call fns m.callbacks c out id)
  unfolding resolve_call
  resolve_call-keeps id u c out i =
      elim (Option-cases (resolver_for m.callbacks c.callee.symbol c.method)) [
        | inl e ↦ rw (e, resolve_call) i
        | inr (rule, e) ↦ elim (Bool-cases (same c.result_id "")) [
          | inl s ↦ rw (e, s, resolve_call) i
          | inr s ↦ elim (Option-cases (executor_of fns c rule)) [
            | inl x ↦ rw (e, s, x, resolve_call) i
            | inr (exec, x) ↦ elim (Option-cases (continuation_of exec rule)) [
              | inl n ↦ rw (e, s, x, n, resolve_call) i
              | inr (name, n) ↦
                  rw (e, s, x, n, resolve_call)
                    (bind_resolver-keeps id u fns exec name (target_of c rule) out i)
            ]
          ]
        ]
      ]

  resolve_call-finds :
      (c d : Call) (exec : Function) (name : String) (t : ResolveTarget) (out : Targets)
      → Makes fns m.callbacks c exec name t
      → Memᴰ d exec.calls
      → is_continuation name d ≡ true
      → Memᴰ t (resolve_call fns m.callbacks c out d.id)
  unfolding resolve_call
  resolve_call-finds c d exec name t out k w named =
      rw (k.target, k.chosen, k.kept, k.handed, k.bound, resolve_call)
        (bind_resolver-finds fns exec name (target_of c k.rule) out d w named)

  -- If a call of the program makes a promise with an executor, then every call of the continuation
  -- that is written in the executor itself is found, with that promise as its target.
  pub resolve_targets_complete :
      (fn : Function) (c d : Call) (exec : Function) (name : String) (t : ResolveTarget)
      → Memᴰ fn fns
      → Memᴰ c fn.calls
      → Makes fns m.callbacks c exec name t
      → Memᴰ d exec.calls
      → is_continuation name d ≡ true
      → Memᴰ t (resolve_targets fns m d.id)
  unfolding resolve_targets
  resolve_targets_complete fn c d exec name t known written k w named =
      let step : Call → Targets → Targets = resolve_call fns m.callbacks in
      each-reaches (λ (o : Targets). Memᴰ t (o d.id)) (λ (g : Function). each step g.calls) fn fns
        (λ id. [])
        (λ g o f.
          each-induction (λ (o : Targets). Memᴰ t (o d.id)) step g.calls o
            (λ b o' n f'. resolve_call-keeps d.id t b o' f') f)
        (λ o.
          each-reaches (λ (o : Targets). Memᴰ t (o d.id)) step c fn.calls o
            (λ b o' f'. resolve_call-keeps d.id t b o' f')
            (λ o'. resolve_call-finds c d exec name t o' k w named) written)
        known
