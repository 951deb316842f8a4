-- ===== src/Taint/Entered.antt =====
-- core/internal/taint/taint.go: what the propagation asks of its state before it hands a value on
-- (recordHopCarries, taintEnteredViaParam, passedAtParam, callSitePassesTaint, bindingReads,
-- argShapeStated).
use sast_engine.Prelude.{
  ℕ, zero, suc, String, Bool, true, false, not, ◌&&◌, ◌||◌, Option, none, some, List, [], ◌∷◌,
  StrSet, insert, contains, same, if◌then◌else◌, last_segment, map,
}
use Prim.Native.String.{◌++◌ as join}
use text.Mathlib.Text.{starts_with}
use sast_engine.Ir.{Function, Flow, Call, Arg, Param, Entry}
use sast_engine.Ir.Binding.{binds}
use sast_engine.Taint.{Engine, State}
use sast_engine.Taint.Rules.{normalize_field_name}
use sast_engine.Taint.Index.{value_by_id, flow_edges_into, object_behind}

-- `recordHopCarries`, over the record fields of the value: whether the hop carries, and whether what
-- it carries is still a record
unfoldable pub record_hop_carries : Engine → Flow → List String → Bool × Bool
record_hop_carries e f [] = (true, false)
record_hop_carries e f (field ∷ fields) =
    if same f.kind "assign" || same f.kind "return"
    then (true, true)
    else if same f.kind "property"
    then elim (value_by_id e.functions f.to) [
      | none ↦ (false, false)
      | some v ↦ (contains (field ∷ fields) (normalize_field_name (last_segment v.path)), false)
    ]
    else (false, false)

-- `params[id]`: the index of the last parameter with the value
unfoldable pub param_index : List Param → String → Option ℕ
param_index [] id = none
param_index (p ∷ ps) id = elim (param_index ps id) [
  | some later ↦ some later
  | none ↦ if same p.value_id id then some p.index else none
]

-- the walk of `taintEnteredViaParam` on its hops; `none` is its answer false
unfoldable pub entered_within : ℕ → List Param → State → StrSet → String → Option (String × ℕ)
entered_within zero ps st seen cur = none
entered_within (suc hops) ps st seen cur = elim (same cur "" || contains seen cur) [
  | true ↦ none
  | false ↦ elim (param_index ps cur) [
    | some index ↦ elim (st.pred cur) [ none ↦ some ("", index) | some ed ↦ some (ed.site, index) ]
    | none ↦ elim (st.pred cur) [
      | none ↦ none
      | some ed ↦ entered_within hops ps st (insert cur seen) ed.from
    ]
  ]
]

unfoldable pub taint_entered_via_param : Function → String → State → Option (String × ℕ)
taint_entered_via_param fn id st = elim fn.params [
  | [] ↦ none
  | p ∷ ps ↦ entered_within 64 (p ∷ ps) st [] id
]

-- `passedAtParam`, over the arguments of the call site
unfoldable pub passed_at_param : List Arg → Function → ℕ → State → Option String
passed_at_param [] fn index st = none
passed_at_param (a ∷ args) fn index st =
    let rest = passed_at_param args fn index st in
    if same a.value_id "" || not (binds a fn.params index)
    then rest
    else if contains st.tainted a.value_id
    then some a.value_id
    else rest

unfoldable pub passes_taint : List Arg → State → Bool
passes_taint [] st = false
passes_taint (a ∷ args) st =
    if not (same a.value_id "") && contains st.tainted a.value_id
    then true
    else passes_taint args st

unfoldable pub call_site_passes_taint : Call → State → Bool
call_site_passes_taint c st =
    not (same c.receiver_id "") && contains st.tainted c.receiver_id || passes_taint c.args st

-- the last loop of `argShapeStated`: no classified value flows in but those that are filed
unfoldable pub all_filed : List Flow → List Entry → State → Bool
all_filed [] entries st = true
all_filed (f ∷ fs) entries st =
    if contains st.tainted f.from
      && not (contains (map (λ (entry : Entry). entry.value_id) entries) f.from)
    then false
    else all_filed fs entries st

unfoldable pub arg_shape_stated : Engine → String → State → Bool
arg_shape_stated e id st = elim (object_behind e.functions id) [
  | none ↦ false
  | some obj ↦ all_filed (flow_edges_into e.functions obj.id) obj.entries st
]

unfoldable pub binding_reads : Engine → String → String → String → State → Bool
binding_reads e path key value_id st =
    if same path key
    then true
    else if starts_with path (join key ".")
    then not (arg_shape_stated e value_id st)
    else starts_with key (join path ".")
