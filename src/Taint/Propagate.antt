-- ===== src/Taint/Propagate.antt =====
-- core/internal/taint/taint.go: the worklist that carries the classification along the program
-- (propagate, throughDestructuredArg, throughCall, throughReceiver).
-- Each loop passes the state on; `none` at the end of `propagate` means that the fuel ran out.
use sast_engine.Prelude.{
  ℕ, zero, suc, pos, negsuc, String, true, false, not, ◌&&◌, ◌||◌, Option, none, some, [], ◌∷◌,
  contains, same, is_some, if◌then◌else◌, nat_eq, each,
}
use Prim.Native.String.{◌++◌ as join}
use sast_engine.Ir.{Function, Flow, Call, Arg, Param}
use sast_engine.Ir.Binding.{bound_params}
use sast_engine.CallGraph.{func_by_id}
use sast_engine.Taint.{ResolveTarget, Engine, State, mark_tainted, has_record, carries_record}
use sast_engine.Taint.Describe.{hop, describe_flow, display_symbol, describe_arg}
use sast_engine.Taint.Rules.{callback_for, store_read_at}
use sast_engine.Taint.Index.{
  flows_from, owner_of_value, call_sites_of, returns_of, arg_uses, receiver_uses, param_at, arg_at,
  DestructuredUse, entry_uses,
}
use sast_engine.Taint.Entered.{
  record_hop_carries, taint_entered_via_param, passed_at_param, call_site_passes_taint,
  arg_shape_stated, binding_reads,
}

-- the loop over `FlowsFrom`
unfoldable pub flow_step : Engine → String → Flow → State → State
flow_step e id f st =
    let (carry, still_record) = record_hop_carries e f (st.record_fields id) in
    let marked =
      mark_tainted e.model f.to (hop id f.kind (describe_flow e f) f.loc "resolved") st in
    if carry then (if still_record then carries_record id f.to marked else marked) else st

-- `throughDestructuredArg`, for one parameter of the callee
unfoldable pub destructured_step :
    Engine → String → DestructuredUse → Function → Param → State → State
destructured_step e id u callee p st =
    if not p.destructured || same p.path "" || not (binding_reads e p.path u.key id st)
    then st
    else mark_tainted e.model p.value_id
        record (hop id "call"
          (join "passed as `" (
            join u.key (
              join "` of " (
                join (describe_arg u.arg)
                  (join " to " (join callee.name (join "(), bound as `" (join p.name "`"))))))))
          u.call.loc u.call.callee.resolution) { symbol = callee.name; site = u.call.id }
        (carries_record id p.value_id st)

unfoldable pub through_destructured_arg : Engine → String → DestructuredUse → State → State
through_destructured_arg e id u st = elim (func_by_id e.functions u.call.callee.function_id) [
  | none ↦ st
  | some callee ↦ each (destructured_step e id u callee) (bound_params u.arg callee.params) st
]

-- the local callee of `throughCall`, for one parameter
unfoldable pub bind_step : Engine → String → Call → Arg → Function → Param → State → State
bind_step e id c a callee p st =
    let bound =
      if p.destructured
      then join (describe_arg a) (join ", bound as `" (join p.name "`"))
      else describe_arg a in
    if p.destructured && not (same p.path "") && arg_shape_stated e id st
    then st
    else mark_tainted e.model p.value_id
        record (hop id "call" (join "passed as " (join bound (join " to " (join callee.name "()"))))
          c.loc c.callee.resolution) { symbol = callee.name; site = c.id }
        (carries_record id p.value_id st)

-- a continuation of a promise, for one of the promises that it completes
unfoldable pub resolve_step : Engine → String → Call → Arg → ResolveTarget → State → State
resolve_step e id c a t st =
    if nat_eq a.index t.arg_index
    then mark_tainted e.model t.result_id
        (hop id "resolve" (join (display_symbol c.callee) (join " (" (join t.note ")"))) c.loc
          t.resolution)
        (carries_record id t.result_id st)
    else st

-- an external or unresolved callee
unfoldable pub outside_step : Engine → String → Call → Arg → State → State
outside_step e id c a st =
    if same c.result_id ""
    then st
    else if is_some (store_read_at e.model.persistence c.callee.symbol c.method c.receiver_type)
    then st
    else if has_record id st
    then st
    else mark_tainted e.model c.result_id
        record (hop id "" (join "through " (join (display_symbol c.callee) "()")) c.loc
          c.callee.resolution) {
            symbol = c.callee.symbol;
            literals = c.arg_literals;
            input_arg = pos a.index;
            has_input_arg = true;
          }
        st

-- `throughCall`, for one argument
unfoldable pub arg_step : Engine → String → Call → Arg → State → State
arg_step e id c a st = elim (same a.value_id id) [
  | false ↦ st
  | true ↦ elim (same c.callee.kind "local") [
    | true ↦ elim (func_by_id e.functions c.callee.function_id) [
      | none ↦ st
      | some callee ↦ each (bind_step e id c a callee) (bound_params a callee.params) st
    ]
    | false ↦ elim (e.resolves c.id) [
      | t ∷ ts ↦ each (resolve_step e id c a) (t ∷ ts) st
      | [] ↦ outside_step e id c a st
    ]
  ]
]

unfoldable pub through_call : Engine → String → Call → State → State
through_call e id c st = each (arg_step e id c) c.args st

-- the parameter of the callback that a higher-order method fills, and the note of its rule
unfoldable pub callback_target : Engine → Call → Option (Param × String)
callback_target e c = elim (callback_for e.model.callbacks c.method) [
  | none ↦ none
  | some rule ↦ elim (arg_at c.args rule.callback_arg) [
    | none ↦ none
    | some arg ↦ elim (same arg.function_id "") [
      | true ↦ none
      | false ↦ elim (func_by_id e.functions arg.function_id) [
        | none ↦ none
        | some callback ↦ elim (param_at callback.params rule.callback_param) [
          | none ↦ none
          | some p ↦ some (p, rule.note)
        ]
      ]
    ]
  ]
]

unfoldable pub into_callback : Engine → String → Call → State → State
into_callback e id c st = elim (callback_target e c) [
  | none ↦ st
  | some (p, note) ↦
      mark_tainted e.model p.value_id
        (hop id ""
          (join "into the "
            (join c.method (join "() callback as `" (join p.name (join "` (" (join note ")"))))))
          c.loc c.callee.resolution)
        st
]

unfoldable pub through_receiver : Engine → String → Call → State → State
through_receiver e id c st =
    let st' = into_callback e id c st in
    if same c.callee.kind "local" || same c.result_id ""
    then st'
    else mark_tainted e.model c.result_id
        record (hop id "" (join "through ." (join c.method "() on tainted data")) c.loc
          c.callee.resolution) {
            symbol = c.callee.symbol;
            input_arg = negsuc 0;
            has_input_arg = true;
          }
        st'

-- the return of a value to one call site
unfoldable pub hand_back : Engine → String → String → Call → State → State
hand_back e from desc site st =
    mark_tainted e.model site.result_id (hop from "return" desc site.loc site.callee.resolution)
      (carries_record from site.result_id st)

unfoldable pub site_step : Engine → String → Function → Option (String × ℕ) → Call → State → State
site_step e id fn entered site st =
    let from_here = hand_back e id (join "returned from " (join fn.name "()")) site st in
    elim (same site.result_id "") [
      | true ↦ st
      | false ↦ elim entered [
        | none ↦ from_here
        | some (at_site, index) ↦ elim (same at_site "") [
          | true ↦ if call_site_passes_taint site st then from_here else st
          | false ↦ elim (same site.id at_site) [
            | true ↦ from_here
            | false ↦ elim (passed_at_param site.args fn index st) [
              | none ↦ st
              | some from ↦ hand_back e from (join "through " (join fn.name "()")) site st
            ]
          ]
        ]
      ]
    ]

-- a value that its function returns
unfoldable pub through_return : Engine → String → State → State
through_return e id st = elim (owner_of_value e.functions id) [
  | none ↦ st
  | some fn ↦ elim (contains (returns_of e.functions fn.id) id) [
    | false ↦ st
    | true ↦
        each (site_step e id fn (taint_entered_via_param fn id st))
          (call_sites_of e.functions fn.id) st
  ]
]

-- the body of the loop
unfoldable pub visit : Engine → String → State → State
visit e id st =
    let flowed = each (flow_step e id) (flows_from e.functions id) st in
    let called = each (through_call e id) (arg_uses e.functions id) flowed in
    let entered = each (through_destructured_arg e id) (entry_uses e.functions id) called in
    let received =
      if has_record id entered
      then entered
      else each (through_receiver e id) (receiver_uses e.functions id) entered in
    through_return e id received

unfoldable pub propagate : Engine → ℕ → State → Option State
propagate e zero st = elim st.queue [ [] ↦ some st | _ ∷ _ ↦ none ]
propagate e (suc fuel) st = elim st.queue [
  | [] ↦ some st
  | id ∷ rest ↦ propagate e fuel (visit e id record st { queue = rest })
]
