-- ===== src/Taint/Recalled.antt =====
-- core/internal/taint/taint.go: bindResolver misses no call of a continuation in the executor itself.
use sast_engine.Prelude.{
  ℕ, contains, insert, suc, String, ◌≡◌, refl, inl, inr, true, ◌||◌, List, [], ◌∷◌, Memᴰ, same,
  same_self, same_iff, leb, length, each, each-induction, each-reaches, Bool-cases, Option-cases,
  subst, sym,
}
use mathlib.Core.List.Memᴰ.{append_left, append_right}
use sast_engine.Ir.{Function, Call, Arg}
use sast_engine.CallGraph.{func_by_id}
use sast_engine.Taint.{ResolveTarget, put}
use sast_engine.Taint.Resolve.{
  Targets, Frame, Closure, is_within, reach_function, is_continuation, completed, reach_call,
  bind_call, bind_within, first_frame, bind_resolver, closure_depth, closure_limit,
}
use sast_engine.Taint.Resolved.{round, bind_within-induction, bind_resolver_total}

module _ (id : String) (u : ResolveTarget) where
  -- the target is found
  abbrev IsFound : Closure → Type 0
  IsFound s = Memᴰ u (s.out id)

  module _ (fns : List Function) (exec : Function) (name : String) where
    reach_function-IsFound :
        (depth : ℕ) (k : String) (s : Closure)
        → IsFound s
        → IsFound (reach_function fns exec name depth k s)
    unfolding reach_function
    reach_function-IsFound depth k s i = elim (Bool-cases (same k "" || contains s.seen k)) [
      | inl old ↦ rw (old, reach_function) i
      | inr new ↦ elim (Option-cases (func_by_id fns k)) [
        | inl missing ↦ rw (new, missing, reach_function) i
        | inr (f, e) ↦ elim (Bool-cases (is_within exec name f)) [
          | inr far ↦ rw (new, e, far, reach_function) i
          | inl close ↦ rw (new, e, close, reach_function) i
        ]
      ]
    ]

    reach_call-IsFound :
        (depth : ℕ) (c : Call) (s : Closure)
        → IsFound s
        → IsFound (reach_call fns exec name depth c s)
    unfolding reach_call
    reach_call-IsFound depth c s i =
        let hand : Arg → Closure → Closure =
          λ a. reach_function fns exec name depth a.function_id in
        let passed : IsFound (each hand c.args s) =
          each-induction IsFound hand c.args s
            (λ a u m. reach_function-IsFound depth a.function_id u) i in
        elim (Bool-cases (same c.callee.kind "local")) [
          | inl local ↦
              rw (local, reach_call)
                (reach_function-IsFound depth c.callee.function_id (each hand c.args s) passed)
          | inr other ↦ rw (other, reach_call) passed
        ]

    bind_call-IsFound :
        (t : ResolveTarget) (depth : ℕ) (c : Call) (s : Closure)
        → IsFound (completed fns exec name t c s)
        → IsFound (bind_call fns exec name t depth c s)
    unfolding bind_call
    bind_call-IsFound t depth c s i =
        let s' = completed fns exec name t c s in
        elim (Bool-cases (leb closure_depth depth || leb closure_limit (length s'.seen))) [
          | inl full ↦ rw (full, bind_call) i
          | inr room ↦ rw (room, bind_call) (reach_call-IsFound depth c s' i)
        ]

    completed-IsFound :
        (t : ResolveTarget) (c : Call) (s : Closure)
        → IsFound s
        → IsFound (completed fns exec name t c s)
    unfolding completed put
    completed-IsFound t c s i = elim (Bool-cases (is_continuation name c)) [
      | inr other ↦ rw (other, completed) i
      | inl named ↦ elim (Bool-cases (same c.id id)) [
        | inr ne ↦ rw (named, ne, completed, put) i
        | inl eq ↦
            let here = (same_iff c.id id).0 eq in
            rw (named, eq, completed, put)
              (append_left (t ∷ []) (subst (λ k. Memᴰ u (s.out k)) (sym here) i))
      ]
    ]

    round-IsFound :
        (t : ResolveTarget) (cur : Frame) (rest : List Frame) (s : Closure)
        → IsFound s
        → IsFound (round fns exec name t cur rest s)
    round-IsFound t cur rest s i =
        each-induction IsFound (bind_call fns exec name t cur.depth) cur.fn.calls
          (record s { queue = rest })
          (λ c v n f. bind_call-IsFound t cur.depth c v (completed-IsFound t c v f)) i

    pub bind_resolver-keeps :
        (t : ResolveTarget) (out : Targets)
        → Memᴰ u (out id)
        → Memᴰ u (bind_resolver fns exec name t out id)
    unfolding bind_resolver first_frame
    bind_resolver-keeps t out i =
        let (r, e) = bind_resolver_total fns exec name t out in
        let (s, f, ends) =
          bind_within-induction fns exec name IsFound t
            (λ cur rest s q f. round-IsFound t cur rest s f) (suc (length fns))
            (first_frame fns exec name out) r i e in
        rw (e, bind_resolver) (subst (λ (o : Targets). Memᴰ u (o id)) ends f)

-- The search finds each call of the continuation in the executor.
pub bind_resolver-finds :
    (fns : List Function) (exec : Function) (name : String) (t : ResolveTarget) (out : Targets)
    (d : Call)
    → Memᴰ d exec.calls
    → is_continuation name d ≡ true
    → Memᴰ t (bind_resolver fns exec name t out d.id)
unfolding bind_resolver bind_within first_frame completed put
bind_resolver-finds fns exec name t out d m named =
    let (r, e) = bind_resolver_total fns exec name t out in
    let begun : Closure = record { seen = insert exec.id []; queue = []; out = out } in
    let hits : (s : Closure) → Memᴰ t ((completed fns exec name t d s).out d.id) = λ s.
      rw (named, completed, put, same_self d.id) (append_right (s.out d.id) (Memᴰ.head refl)) in
    let first : IsFound d.id t (round fns exec name t (record { fn = exec; depth = 0 }) [] begun) =
      each-reaches (IsFound d.id t) (bind_call fns exec name t 0) d exec.calls begun
        (λ c s f.
          bind_call-IsFound d.id t fns exec name t 0 c s
            (completed-IsFound d.id t fns exec name t c s f))
        (λ s. bind_call-IsFound d.id t fns exec name t 0 d s (hits s)) m in
    let (s, f, ends) =
      bind_within-induction fns exec name (IsFound d.id t) t
        (λ cur rest s q f. round-IsFound d.id t fns exec name t cur rest s f) (length fns)
        (round fns exec name t (record { fn = exec; depth = 0 }) [] begun) r first e in
    rw (e, bind_resolver) (subst (λ (o : Targets). Memᴰ t (o d.id)) ends f)
