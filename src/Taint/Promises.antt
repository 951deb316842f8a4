-- ===== src/Taint/Promises.antt =====
-- core/internal/taint/taint.go: the calls that resolveTargets finds complete a promise.
use sast_engine.Prelude.{
  ℕ, suc, String, ◌≡◌, refl, ◌⊎◌, inl, inr, true, ◌||◌, List, [], ◌∷◌, ◌++◌, Memᴰ, contains, same,
  same_iff, leb, arith, each, each-induction, Bool-cases, Option-cases, Memᴰ-append, subst, sym,
  length, ◌∙◌, ap, ◌≤◌,
}
use mathlib.Core.List.Memᴰ.{cases_cons, not-nil}
use sast_engine.Ir.{Function, Call, Arg, Param}
use sast_engine.CallGraph.{func_by_id}
use sast_engine.CallGraph.Lookup.{func_by_id-Memᴰ}
use sast_engine.Taint.{ResolveTarget, put}
use sast_engine.Taint.Resolved.{round, bind_within-induction, bind_resolver_total}
use sast_engine.Taint.Resolve.{
  Targets, Frame, Closure, is_within, binds_name, reach_function, is_continuation, completed,
  reach_call, bind_call, first_frame, bind_resolver, closure_depth, closure_limit,
}

-- A function is written in the module of the executor, not before it, and has no parameter of that name.
abbrev pub StandsWithin : Function → String → Function → Type 0
StandsWithin exec name f =
    (f.owner_module ≡ exec.owner_module)
    × (exec.loc.line ≤ f.loc.line)
    × ((p : Param) → Memᴰ p f.params → ¬ (p.name ≡ name))

binds_name-Memᴰ :
    (ps : List Param) (name : String) (p : Param)
    → Memᴰ p ps
    → p.name ≡ name
    → binds_name ps name ≡ true
unfolding binds_name
binds_name-Memᴰ [] name p m h = absurd (not-nil m)
binds_name-Memᴰ (q ∷ qs) name p m h = elim (cases_cons m) [
  | inl e ↦
      let named : q.name ≡ name = ap (λ (r : Param). r.name) (sym e) ∙ h in
      ground (arith, same_iff q.name name)
  | inr r ↦ ground (arith, binds_name-Memᴰ qs name p r h)
]

is_within-StandsWithin :
    (exec : Function) (name : String) (f : Function)
    → is_within exec name f ≡ true
    → StandsWithin exec name f
unfolding is_within
is_within-StandsWithin exec name f h = (
  ground (arith, same_iff f.owner_module exec.owner_module),
  ground (arith, same_iff f.owner_module exec.owner_module),
  λ p m e. ground (arith, binds_name-Memᴰ f.params name p m e),
)

-- A call is written as the continuation of an executor, in the executor or in a function that stands
-- within it.
pub record Continues (fns : List Function) (exec : Function) (name : String) (id : String)
    : Type 0 where
  pub user : Function
  pub known : Memᴰ user fns
  pub near : (user ≡ exec) ⊎ StandsWithin exec name user
  pub call : Call
  pub written : Memᴰ call user.calls
  pub identified : call.id ≡ id
  pub continues : is_continuation name call ≡ true

module _ (fns : List Function) (exec : Function) (name : String) (t : ResolveTarget) (out : Targets)
    (known : Memᴰ exec fns) where
  -- a function that the search may look into
  abbrev MayUse : Function → Type 0
  MayUse f = Memᴰ f fns × ((f ≡ exec) ⊎ StandsWithin exec name f)

  -- what the search keeps
  record IsBinding (s : Closure) : Type 0 where
    near : (f : Frame) → Memᴰ f s.queue → MayUse f.fn
    found :
        (id : String) (u : ResolveTarget)
        → Memᴰ u (s.out id)
        → Memᴰ u (out id) ⊎ ((u ≡ t) × Continues fns exec name id)

  reach_function-IsBinding :
      (depth : ℕ) (id : String) (s : Closure)
      → IsBinding s
      → IsBinding (reach_function fns exec name depth id s)
  unfolding reach_function
  reach_function-IsBinding depth id s i = elim (Bool-cases (same id "" || contains s.seen id)) [
    | inl old ↦ rw (old, reach_function) i
    | inr new ↦ elim (Option-cases (func_by_id fns id)) [
      | inl missing ↦ rw (new, missing, reach_function) i
      | inr (f, e) ↦ elim (Bool-cases (is_within exec name f)) [
        | inr far ↦ rw (new, e, far, reach_function) i
        | inl close ↦
            let near : (g : Frame)
                → Memᴰ g (s.queue ++ record { fn = f; depth = suc depth } ∷ [])
                → MayUse g.fn =
              λ g m. elim (Memᴰ-append s.queue (record { fn = f; depth = suc depth } ∷ []) g m) [
                | inl old ↦ i.near g old
                | inr m' ↦ elim (cases_cons m') [
                  | inl h ↦
                      subst (λ (g : Frame). MayUse g.fn) (sym h)
                        (func_by_id-Memᴰ fns id f e, inr (is_within-StandsWithin exec name f close))
                  | inr r ↦ absurd (not-nil r)
                ]
              ] in
            rw (new, e, close, reach_function) record { near = near; found = i.found }
      ]
    ]
  ]

  reach_call-IsBinding :
      (depth : ℕ) (c : Call) (s : Closure)
      → IsBinding s
      → IsBinding (reach_call fns exec name depth c s)
  unfolding reach_call
  reach_call-IsBinding depth c s i =
      let hand : Arg → Closure → Closure = λ a. reach_function fns exec name depth a.function_id in
      let passed : IsBinding (each hand c.args s) =
        each-induction IsBinding hand c.args s
          (λ a u m. reach_function-IsBinding depth a.function_id u) i in
      elim (Bool-cases (same c.callee.kind "local")) [
        | inl local ↦
            rw (local, reach_call)
              (reach_function-IsBinding depth c.callee.function_id (each hand c.args s) passed)
        | inr other ↦ rw (other, reach_call) passed
      ]

  completed-IsBinding :
      (f : Function) (c : Call) (s : Closure)
      → MayUse f
      → Memᴰ c f.calls
      → IsBinding s
      → IsBinding (completed fns exec name t c s)
  unfolding completed put
  completed-IsBinding f c s (k, n) w i = elim (Bool-cases (is_continuation name c)) [
    | inr other ↦ rw (other, completed) i
    | inl named ↦
        let found : (id : String) (u : ResolveTarget)
            → Memᴰ u (put c.id (s.out c.id ++ t ∷ []) s.out id)
            → Memᴰ u (out id) ⊎ ((u ≡ t) × Continues fns exec name id) =
          λ id u m. elim (Bool-cases (same c.id id)) [
            | inr ne ↦ i.found id u (rw (ne, put) at m)
            | inl eq ↦
                let here : c.id ≡ id = (same_iff c.id id).0 eq in
                elim (Memᴰ-append (s.out c.id) (t ∷ []) u (rw (eq, put) at m)) [
                  | inl old ↦ i.found id u (subst (λ k. Memᴰ u (s.out k)) here old)
                  | inr m' ↦ elim (cases_cons m') [
                    | inl h ↦ inr (
                      h,
                      record {
                        user = f;
                        known = k;
                        near = n;
                        call = c;
                        written = w;
                        identified = here;
                        continues = named;
                      },
                    )
                    | inr r ↦ absurd (not-nil r)
                  ]
                ]
          ] in
        rw (named, completed) record { near = i.near; found = found }
  ]

  bind_call-IsBinding :
      (f : Function) (depth : ℕ) (c : Call) (s : Closure)
      → MayUse f
      → Memᴰ c f.calls
      → IsBinding s
      → IsBinding (bind_call fns exec name t depth c s)
  unfolding bind_call
  bind_call-IsBinding f depth c s k w i =
      let s' = completed fns exec name t c s in
      let i' = completed-IsBinding f c s k w i in
      elim (Bool-cases (leb closure_depth depth || leb closure_limit (length s'.seen))) [
        | inl full ↦ rw (full, bind_call) i'
        | inr room ↦ rw (room, bind_call) (reach_call-IsBinding depth c s' i')
      ]

  round-IsBinding :
      (cur : Frame) (rest : List Frame) (s : Closure)
      → s.queue ≡ cur ∷ rest
      → IsBinding s
      → IsBinding (round fns exec name t cur rest s)
  round-IsBinding cur rest s e i =
      let near : (g : Frame) → Memᴰ g (cur ∷ rest) → MayUse g.fn =
        subst (λ q. (g : Frame) → Memᴰ g q → MayUse g.fn) e i.near in
      each-induction IsBinding (bind_call fns exec name t cur.depth) cur.fn.calls
        (record s { queue = rest })
        (λ c v n. bind_call-IsBinding cur.fn cur.depth c v (near cur (Memᴰ.head refl)) n)
        (record { near = λ g n. near g (Memᴰ.tail n); found = i.found })

  first_frame-IsBinding : IsBinding (first_frame fns exec name out)
  unfolding first_frame
  first_frame-IsBinding = record {
    near = λ g m. elim (cases_cons m) [
      | inl h ↦ subst (λ (g : Frame). MayUse g.fn) (sym h) (known, inl refl)
      | inr r ↦ absurd (not-nil r)
    ];
    found = λ id u m. inl m;
  }

  pub bind_resolver-found :
      (id : String) (u : ResolveTarget)
      → Memᴰ u (bind_resolver fns exec name t out id)
      → Memᴰ u (out id) ⊎ ((u ≡ t) × Continues fns exec name id)
  unfolding bind_resolver
  bind_resolver-found id u m =
      let (r, e) = bind_resolver_total fns exec name t out in
      let (s, i, ends) =
        bind_within-induction fns exec name IsBinding t round-IsBinding (suc (length fns))
          (first_frame fns exec name out) r first_frame-IsBinding e in
      i.found id u (subst (λ (o : Targets). Memᴰ u (o id)) (sym ends) (rw (e, bind_resolver) at m))
