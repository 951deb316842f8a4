-- ===== src/Taint/Hops.antt =====
-- core/internal/taint/taint.go: a flow, an argument and a continuation make only moves of the
-- program.
use sast_engine.Prelude.{
  arith, false, [], String, ◌≡◌, inl, inr, true, not, ◌&&◌, ◌∷◌, contains, same, same_iff, Memᴰ,
  Bool-cases, Option-cases, List-cases, subst, nat_eq, sym,
}
use sast_engine.Ir.{Flow, Call, Arg, Param, Function}
use sast_engine.Ir.Binding.{bound_params}
use sast_engine.CallGraph.{func_by_id}
use sast_engine.Taint.{Edge, Engine, State, ResolveTarget, mark_tainted, carries_record, has_record}
use sast_engine.Taint.Rules.{store_read_at}
use sast_engine.Taint.Index.{flows_from, arg_uses}
use sast_engine.Taint.Entered.{record_hop_carries, arg_shape_stated}
use sast_engine.Taint.Describe
use sast_engine.Taint.Describe.{hop, describe_flow}
use sast_engine.Taint.Propagate.{
  flow_step, bind_step, resolve_step, outside_step, arg_step, through_call,
}
use sast_engine.Taint.Leads.{Leads, flow, argument, resolved, through}
use sast_engine.Taint.Moves.{Moves, stay, marked, renamed, each-Moves, carries_record-tainted}

-- a record handle that is passed on, and a value that is marked after it
pub renamed_and_marked :
    (e : Engine) (st : State) (to : String) (ed : Edge)
    → contains st.tainted ed.from ≡ true
    → Leads e ed.from to
    → Moves e st (mark_tainted e.model to ed (carries_record ed.from to st))
renamed_and_marked e st to ed t l =
    marked (carries_record ed.from to st) to ed (renamed st ed.from to stay)
      (rw (carries_record-tainted ed.from to st) t) l

pub flow_step-Moves :
    (e : Engine) (id : String) (f : Flow) (st : State)
    → Memᴰ f (flows_from e.functions id)
    → contains st.tainted id ≡ true
    → Moves e st (flow_step e id f st)
unfolding flow_step Describe.hop
flow_step-Moves e id f st m t = elim (Bool-cases (record_hop_carries e f (st.record_fields id)).0) [
  | inr stop ↦ rw (stop, flow_step) stay
  | inl go ↦
      let ed = hop id f.kind (describe_flow e f) f.loc "resolved" in
      let one : Moves e st (mark_tainted e.model f.to ed st) =
        marked st f.to ed stay t (flow id f m) in
      elim (Bool-cases (record_hop_carries e f (st.record_fields id)).1) [
        | inl r ↦ rw (go, r, flow_step) (renamed (mark_tainted e.model f.to ed st) id f.to one)
        | inr r ↦ rw (go, r, flow_step) one
      ]
]

pub bind_step-Moves :
    (e : Engine) (id : String) (c : Call) (a : Arg) (callee : Function) (p : Param) (st : State)
    → Leads e id p.value_id
    → contains st.tainted id ≡ true
    → Moves e st (bind_step e id c a callee p st)
unfolding bind_step Describe.hop
bind_step-Moves e id c a callee p st l t =
    elim (Bool-cases (p.destructured && not (same p.path "") && arg_shape_stated e id st)) [
      | inl stop ↦ rw (stop, bind_step) stay
      | inr go ↦ rw (go, bind_step) (renamed_and_marked e st p.value_id _ t l)
    ]

resolve_step-Moves :
    (e : Engine) (id : String) (c : Call) (a : Arg) (r : ResolveTarget) (st : State)
    → (a.index ≡ r.arg_index → Leads e id r.result_id)
    → contains st.tainted id ≡ true
    → Moves e st (resolve_step e id c a r st)
unfolding resolve_step Describe.hop
resolve_step-Moves e id c a r st l t = elim (Bool-cases (nat_eq a.index r.arg_index)) [
  | inr stop ↦ rw (stop, resolve_step) stay
  | inl go ↦ rw (go, resolve_step) (renamed_and_marked e st r.result_id _ t (l (ground arith)))
]

outside_step-Moves :
    (e : Engine) (id : String) (c : Call) (a : Arg) (st : State)
    → Memᴰ c (arg_uses e.functions id)
    → same c.callee.kind "local" ≡ false
    → e.resolves c.id ≡ []
    → contains st.tainted id ≡ true
    → Moves e st (outside_step e id c a st)
unfolding outside_step Describe.hop
outside_step-Moves e id c a st m outside nothing t = elim (Bool-cases (same c.result_id "")) [
  | inl stop ↦ rw (stop, outside_step) stay
  | inr go ↦
      elim (Option-cases
        (store_read_at e.model.persistence c.callee.symbol c.method c.receiver_type)) [
          | inr (s, stop) ↦ rw (go, stop, outside_step) stay
          | inl fresh ↦ elim (Bool-cases (has_record id st)) [
            | inl stop ↦ rw (go, fresh, stop, outside_step) stay
            | inr bare ↦
                rw (go, fresh, bare, outside_step)
                  (marked st c.result_id _ stay t (through id c m outside nothing go fresh))
          ]
        ]
]

pub arg_step-Moves :
    (e : Engine) (id : String) (c : Call) (a : Arg) (st : State)
    → Memᴰ c (arg_uses e.functions id)
    → Memᴰ a c.args
    → contains st.tainted id ≡ true
    → Moves e st (arg_step e id c a st)
unfolding arg_step
arg_step-Moves e id c a st m n t = elim (Bool-cases (same a.value_id id)) [
  | inr other ↦ rw (other, arg_step) stay
  | inl it ↦ elim (Bool-cases (same c.callee.kind "local")) [
    | inr outside ↦ elim (List-cases (e.resolves c.id)) [
      | inl nothing ↦
          rw (it, outside, nothing, arg_step) (outside_step-Moves e id c a st m outside nothing t)
      | inr (r, rs, some_of) ↦
          rw (it, outside, some_of, arg_step)
            (each-Moves e id (resolve_step e id c a) (r ∷ rs) st
              (λ r' k s t'.
                resolve_step-Moves e id c a r' s
                  (λ same_place.
                    resolved id c a r' m n ((same_iff a.value_id id).0 it) outside
                      (subst (λ w. Memᴰ r' w) (sym some_of) k) same_place)
                  t')
              t)
    ]
    | inl local ↦ elim (Option-cases (func_by_id e.functions c.callee.function_id)) [
      | inl unknown ↦ rw (it, local, unknown, arg_step) stay
      | inr (callee, known) ↦
          rw (it, local, known, arg_step)
            (each-Moves e id (bind_step e id c a callee) (bound_params a callee.params) st
              (λ p k s t'.
                bind_step-Moves e id c a callee p s
                  (argument id c a callee p m n ((same_iff a.value_id id).0 it)
                    ((same_iff c.callee.kind "local").0 local) known k)
                  t')
              t)
    ]
  ]
]

pub through_call-Moves :
    (e : Engine) (id : String) (c : Call) (st : State)
    → Memᴰ c (arg_uses e.functions id)
    → contains st.tainted id ≡ true
    → Moves e st (through_call e id c st)
unfolding through_call
through_call-Moves e id c st m t =
    each-Moves e id (arg_step e id c) c.args st (λ a n s t'. arg_step-Moves e id c a s m n t') t
