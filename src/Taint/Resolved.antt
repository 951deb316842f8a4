-- ===== src/Taint/Resolved.antt =====
-- core/internal/taint/taint.go: the search of bindResolver ends.
use sast_engine.Prelude.{
  ℕ, zero, suc, ◌+◌, ◌≤◌, String, ◌≡◌, refl, inl, inr, ◌||◌, some, List, [], ◌∷◌, contains, insert,
  same, length, length-append, arith, each, each-induction, Bool-cases, Option-cases, List-cases,
  ap, StrSet, ◌∙◌, sym, none-not-some, some-injective,
}
use sast_engine.Ir.{Function, Call, Arg}
use sast_engine.CallGraph.{func_by_id}
use sast_engine.CallGraph.Lookup.{names_of, func_by_id-contains}
use sast_engine.CallGraph.Marks.{unseen, unseen-insert}
use sast_engine.Taint.{ResolveTarget}
use sast_engine.Taint.Resolve.{
  Targets, Frame, Closure, reach_function, completed, reach_call, bind_call, bind_within,
  first_frame,
}

module _ (fns : List Function) (exec : Function) (name : String) where
  -- the rounds that are left to a search
  unfoldable pub rounds_left : Closure → ℕ
  rounds_left s = length s.queue + unseen s.seen (names_of fns)

  reach_function-le :
      (depth : ℕ) (id : String) (s : Closure)
      → rounds_left (reach_function fns exec name depth id s) ≤ rounds_left s
  unfolding reach_function rounds_left
  reach_function-le depth id s = elim (Bool-cases (same id "" || contains s.seen id)) [
    | inl old ↦ rw (old, reach_function) (omega arith)
    | inr new ↦ elim (Option-cases (func_by_id fns id)) [
      | inl missing ↦ rw (new, missing, reach_function) (omega arith)
      | inr (f, found) ↦
          rw (new, found, reach_function)
            (ground (
              arith,
              unseen-insert s.seen id (names_of fns),
              func_by_id-contains fns id f found,
              length-append s.queue (record { fn = f; depth = suc depth } ∷ []),
            ))
    ]
  ]

  reach_call-le :
      (depth : ℕ) (c : Call) (s : Closure)
      → rounds_left (reach_call fns exec name depth c s) ≤ rounds_left s
  unfolding reach_call
  reach_call-le depth c s =
      let hand : Arg → Closure → Closure = λ a. reach_function fns exec name depth a.function_id in
      let passed : rounds_left (each hand c.args s) ≤ rounds_left s =
        each-induction (λ t. rounds_left t ≤ rounds_left s) hand c.args s
          (λ a t m h. omega (arith, reach_function-le depth a.function_id t)) (omega arith) in
      ground (arith, passed, reach_function-le depth c.callee.function_id (each hand c.args s))

  bind_call-le :
      (t : ResolveTarget) (depth : ℕ) (c : Call) (s : Closure)
      → rounds_left (bind_call fns exec name t depth c s) ≤ rounds_left s
  unfolding bind_call completed rounds_left
  bind_call-le t depth c s =
      let same_rounds : rounds_left (completed fns exec name t c s) ≡ rounds_left s =
        ground arith in
      ground (arith, reach_call-le depth c (completed fns exec name t c s))

  pub bind_within_total :
      (t : ResolveTarget) (fuel : ℕ) (s : Closure)
      → rounds_left s ≤ fuel
      → (out : Targets) × (bind_within fns exec name t fuel s ≡ some out)
  unfolding bind_within rounds_left
  bind_within_total t zero s h = elim (List-cases s.queue) [
    | inl e ↦ (s.out, rw (e, bind_within) refl)
    | inr (cur, rest, e) ↦ absurd (omega (arith, ap length e))
  ]
  bind_within_total t (suc fuel) s h = elim (List-cases s.queue) [
    | inl e ↦ (s.out, rw (e, bind_within) refl)
    | inr (cur, rest, e) ↦
        let step : Call → Closure → Closure = bind_call fns exec name t cur.depth in
        let popped : Closure = record s { queue = rest } in
        let within : rounds_left (each step cur.fn.calls popped) ≤ rounds_left popped =
          each-induction (λ t. rounds_left t ≤ rounds_left popped) step cur.fn.calls popped
            (λ c u m h. omega (arith, bind_call-le t cur.depth c u)) (omega arith) in
        let (out, ends) =
          bind_within_total t fuel (each step cur.fn.calls popped)
            (omega (arith, within, h, ap length e)) in
        let unrolled : bind_within fns exec name t (suc fuel) s
            ≡ bind_within fns exec name t fuel (each step cur.fn.calls popped) =
          rw (e, bind_within) refl in
        (out, unrolled ∙ ends)
  ]

  unseen-names_of : (seen : StrSet) (gs : List Function) → unseen seen (names_of gs) ≤ length gs
  unfolding unseen
  unseen-names_of seen [] = omega arith
  unseen-names_of seen (g ∷ gs) = ground (arith, unseen-names_of seen gs)

  pub bind_resolver_total :
      (t : ResolveTarget) (out : Targets)
      → (out' : Targets) × (bind_within fns exec name t
            (suc (length fns))
            (first_frame fns exec name out)
          ≡ some out')
  unfolding rounds_left first_frame
  bind_resolver_total t out =
      bind_within_total t (suc (length fns)) (first_frame fns exec name out)
        (omega (arith, unseen-names_of (insert exec.id []) fns))

  -- the body of the loop over the queue
  abbrev pub round : ResolveTarget → Frame → List Frame → Closure → Closure
  round t cur rest s =
      each (bind_call fns exec name t cur.depth) cur.fn.calls record s { queue = rest }

  -- What each round keeps holds at the end, of the state whose targets are returned.
  pub bind_within-induction {ℓ} :
      (P : Closure → Type ℓ) (t : ResolveTarget)
      → ((cur : Frame) (rest : List Frame) (s : Closure)
          → s.queue ≡ cur ∷ rest
          → P s
          → P (round t cur rest s))
      → (fuel : ℕ) (s : Closure) (r : Targets) → P s
      → bind_within fns exec name t fuel s ≡ some r
      → (s' : Closure) × P s' × (s'.out ≡ r)
  unfolding bind_within
  bind_within-induction P t keeps zero s r p h = elim (List-cases s.queue) [
    | inl e ↦ (s, p, some-injective s.out r (rw (e, bind_within) at h))
    | inr (cur, rest, e) ↦ absurd (none-not-some r (rw (e, bind_within) at h))
  ]
  bind_within-induction P t keeps (suc fuel) s r p h = elim (List-cases s.queue) [
    | inl e ↦ (s, p, some-injective s.out r (rw (e, bind_within) at h))
    | inr (cur, rest, e) ↦
        let unrolled : bind_within fns exec name t (suc fuel) s
            ≡ bind_within fns exec name t fuel (round t cur rest s) =
          rw (e, bind_within) refl in
        bind_within-induction P t keeps fuel (round t cur rest s) r (keeps cur rest s e p)
          (sym unrolled ∙ h)
  ]
