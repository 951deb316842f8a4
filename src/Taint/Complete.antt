-- ===== src/Taint/Complete.antt =====
-- core/internal/taint/taint.go: a round takes every sure hop of its value, so that none is left when the
-- propagation ends.
use sast_engine.Prelude.{
  String, ◌≡◌, refl, true, false, some, [], contains, same, same_iff, Memᴰ, each,
}
use sast_engine.Ir.{Call, Arg, Function}
use sast_engine.Ir.Binding.{bound_params}
use sast_engine.CallGraph.{func_by_id}
use sast_engine.Taint.{Engine, State, has_record}
use sast_engine.Taint.Index.{flows_from, arg_uses, receiver_uses}
use sast_engine.Taint.Propagate.{
  flow_step, bind_step, outside_step, arg_step, through_call, through_receiver, through_return,
  visit,
}
use sast_engine.Taint.Moves.{IsKeptLed, Moves-IsKeptLed, Moves-keeps, trans}
use sast_engine.Taint.Hops.{flow_step-Moves, through_call-Moves, arg_step-Moves, bind_step-Moves}
use sast_engine.Taint.Visit.{through_receiver-Moves, through_return-Moves}
use sast_engine.Taint.Leads.{argument}
use sast_engine.Taint.Round.{
  after_flows, after_calls, after_entries, after_methods, after_flows-Moves, after_calls-Moves,
  destructured-Moves, after_entries-Moves, after_methods-Moves,
}
use sast_engine.Taint.Closed
use sast_engine.Taint.Closed.{
  Surely, HasNoRecords, Moves-HasNoRecords, has_record-HasNoRecords, each-marks, flow_step-marks,
  bind_step-marks, outside_step-marks, through_receiver-marks,
}

module _ (e : Engine) (id : String) where
  arg_step-outside :
      (c : Call) (a : Arg) (s : State)
      → a.value_id ≡ id
      → same c.callee.kind "local" ≡ false
      → e.resolves c.id ≡ []
      → arg_step e id c a s ≡ outside_step e id c a s
  unfolding arg_step
  arg_step-outside c a s v l r = rw ((same_iff a.value_id id).1 v, l, r, arg_step) refl

  arg_step-local :
      (c : Call) (a : Arg) (callee : Function) (s : State)
      → a.value_id ≡ id
      → c.callee.kind ≡ "local"
      → func_by_id e.functions c.callee.function_id ≡ some callee
      → arg_step e id c a s ≡ each (bind_step e id c a callee) (bound_params a callee.params) s
  unfolding arg_step
  arg_step-local c a callee s v l k =
      rw ((same_iff a.value_id id).1 v, (same_iff c.callee.kind "local").1 l, k, arg_step) refl

  -- the calls that classify a value, in the loop over the uses as an argument
  module _ (st : State) (t : contains st.tainted id ≡ true) (n : HasNoRecords st)
      (led : IsKeptLed e st) where
    call-marks :
        (c : Call) (a : Arg) (y : String)
        → Memᴰ c (arg_uses e.functions id)
        → Memᴰ a c.args
        → ((s : State)
            → contains s.tainted id ≡ true
            → HasNoRecords s
            → contains (arg_step e id c a s).tainted y ≡ true)
        → contains (after_calls e id st).tainted y ≡ true
    unfolding through_call
    call-marks c a y m k f =
        let t' = Moves-keeps e st (after_flows e id st) (after_flows-Moves e id st t) id t in
        let n' = Moves-HasNoRecords e st (after_flows e id st) (after_flows-Moves e id st t) n in
        each-marks e id y (through_call e id) (arg_uses e.functions id) (after_flows e id st) c m
          (λ d j s t'. through_call-Moves e id d s j t')
          (λ s ts ns.
            each-marks e id y (arg_step e id c) c.args s a k
              (λ b j s' t''. arg_step-Moves e id c b s' m j t'') f ts ns)
          t' n'

    after_entries-bare : has_record id (after_entries e id st) ≡ false
    after_entries-bare =
        has_record-HasNoRecords id (after_entries e id st)
          (Moves-HasNoRecords e st (after_entries e id st) (after_entries-Moves e id st t) n)

    -- What a stage of the round has classified is so at its end.
    final-of-after_methods :
        (y : String)
        → contains (after_methods e id st).tainted y ≡ true
        → contains (visit e id st).tainted y ≡ true
    unfolding visit
    final-of-after_methods y h =
        let m =
          trans e st (after_entries e id st) (after_methods e id st) (after_entries-Moves e id st t)
            (after_methods-Moves e id st t) in
        rw (after_entries-bare, visit)
          (Moves-keeps e (after_methods e id st) (through_return e id (after_methods e id st))
            (through_return-Moves e id (after_methods e id st)
              (Moves-IsKeptLed e st (after_methods e id st) m led)
              (Moves-keeps e st (after_methods e id st) m id t))
            y h)

    final-of-after_calls :
        (y : String)
        → contains (after_calls e id st).tainted y ≡ true
        → contains (visit e id st).tainted y ≡ true
    final-of-after_calls y h = final-of-after_methods y (
        Moves-keeps e (after_entries e id st) (after_methods e id st)
          (after_methods-Moves e id st t) y
          (Moves-keeps e (after_calls e id st) (after_entries e id st)
            (destructured-Moves e id st t) y h))

    final-of-after_flows :
        (y : String)
        → contains (after_flows e id st).tainted y ≡ true
        → contains (visit e id st).tainted y ≡ true
    final-of-after_flows y h = final-of-after_calls y (
        Moves-keeps e (after_flows e id st) (after_calls e id st) (after_calls-Moves e id st t) y h)

    -- A round takes every sure hop of its value.
    pub visit-marks :
        (y : String) → Surely e id y → same y "" ≡ false → contains (visit e id st).tainted y ≡ true
    visit-marks _ (Closed.flow f m) h = final-of-after_flows f.to (
        each-marks e id f.to (flow_step e id) (flows_from e.functions id) st f m
          (λ g k s t'. flow_step-Moves e id g s k t') (λ s ts ns. flow_step-marks e id f s h ns) t
          n)
    visit-marks _ (Closed.argument c a callee p m k v l known b d) h =
        final-of-after_calls p.value_id (
          call-marks c a p.value_id m k λ s ts ns. rw (arg_step-local c a callee s v l known) (
            each-marks e id p.value_id (bind_step e id c a callee) (bound_params a callee.params) s
              p b
              (λ q j s' t'.
                bind_step-Moves e id c a callee q s' (argument id c a callee q m k v l known j) t')
              (λ s' ts' ns'. bind_step-marks e id c a callee p s' d h) ts ns))
    visit-marks _ (Closed.through c a m k v l r s₀) h = final-of-after_calls c.result_id (
        call-marks c a c.result_id m k
          λ s ts ns. rw (arg_step-outside c a s v l r) (outside_step-marks e id c a s s₀ h ns))
    visit-marks _ (Closed.answer c m l) h = final-of-after_methods c.result_id (
        each-marks e id c.result_id (through_receiver e id) (receiver_uses e.functions id)
          (after_entries e id st) c m (λ d k s t'. through_receiver-Moves e id d s k t')
          (λ s ts ns. through_receiver-marks e id c s l h)
          (Moves-keeps e st (after_entries e id st) (after_entries-Moves e id st t) id t)
          (Moves-HasNoRecords e st (after_entries e id st) (after_entries-Moves e id st t) n))
