-- ===== src/Taint/Index.antt =====
-- What the propagation looks up in the program: core/internal/ir/ir.go (NewIndex) and, of
-- core/internal/taint/taint.go, build with indexDestructuredArgs, paramAt and argAt. Each map is the
-- function that answers its key; an append in source order is a list in that order.
use sast_engine.Prelude.{
  ℕ, zero, suc, String, Bool, true, false, not, ◌&&◌, ◌||◌, Option, none, some, List, [], ◌∷◌, same,
  if◌then◌else◌, nat_eq, length, select, gather,
}
use Prim.Native.String.{◌++◌ as join}
use sast_engine.Ir.{Function, Flow, Call, Arg, Param, Value, Entry}
use sast_engine.CallGraph.{func_by_id}

-- `ix.FlowsFrom`
unfoldable pub flows_from : List Function → String → List Flow
flows_from fns id = gather (λ fn. select (λ f. same f.from id) fn.flows) fns

-- the last of some values with a name
unfoldable pub last_value : List Value → String → Option Value
last_value [] id = none
last_value (v ∷ vs) id = elim (last_value vs id) [
  | some later ↦ some later
  | none ↦ if same v.id id then some v else none
]

-- `ix.ValueByID`
unfoldable pub value_by_id : List Function → String → Option Value
value_by_id [] id = none
value_by_id (fn ∷ fns) id = elim (value_by_id fns id) [
  | some later ↦ some later
  | none ↦ last_value fn.values id
]

-- `ix.OwnerOfValue`
unfoldable pub owner_of_value : List Function → String → Option Function
owner_of_value [] id = none
owner_of_value (fn ∷ fns) id = elim (owner_of_value fns id) [
  | some later ↦ some later
  | none ↦ elim (last_value fn.values id) [ some v ↦ some fn | none ↦ none ]
]

-- `ix.CallSitesOf`
unfoldable pub call_sites_of : List Function → String → List Call
call_sites_of fns id =
    gather
      (λ fn.
        select
          (λ c.
            same c.callee.kind "local"
            && not (same c.callee.function_id "")
            && same c.callee.function_id id)
          fn.calls)
      fns

-- `e.returns`
unfoldable pub returns_of : List Function → String → List String
returns_of fns id = elim (func_by_id fns id) [ none ↦ [] | some fn ↦ fn.returns ]

-- one call for each of its arguments that is the value
unfoldable pub used_in : String → Call → List Call
used_in id c =
    gather (λ a. if not (same a.value_id "") && same a.value_id id then c ∷ [] else []) c.args

-- `e.argUses`
unfoldable pub arg_uses : List Function → String → List Call
arg_uses fns id = gather (λ fn. gather (used_in id) fn.calls) fns

-- `e.receiverUses`
unfoldable pub receiver_uses : List Function → String → List Call
receiver_uses fns id =
    gather (λ fn. select (λ c. not (same c.receiver_id "") && same c.receiver_id id) fn.calls) fns

unfoldable pub is_named : Flow → Bool
is_named f = not (same f.from "") && not (same f.to "")

-- `e.flowEdgesInto`
unfoldable pub flow_edges_into : List Function → String → List Flow
flow_edges_into fns id = gather (λ fn. select (λ f. is_named f && same f.to id) fn.flows) fns

-- the last assignment among some flows, or the empty text
unfoldable pub last_assigned : List Flow → String
last_assigned [] = ""
last_assigned (f ∷ fs) =
    let rest = last_assigned fs in
    if same rest "" then (if same f.kind "assign" then f.from else "") else rest

-- `e.assignedFrom`
unfoldable pub assigned_from : List Function → String → String
assigned_from fns id = last_assigned (flow_edges_into fns id)

-- `paramAt`
unfoldable pub param_at : List Param → ℕ → Option Param
param_at [] index = none
param_at (p ∷ ps) index =
    let rest = param_at ps index in if nat_eq p.index index then some p else rest

-- `argAt`, with `At`
unfoldable pub arg_at : List Arg → ℕ → Option Arg
arg_at [] index = none
arg_at (a ∷ args) index =
    let rest = arg_at args index in if same a.name "" && nat_eq a.index index then some a else rest

-- the loop of `objectBehind`, on its hops
unfoldable pub object_within : ℕ → List Function → String → Option Value
object_within zero fns id = none
object_within (suc hops) fns id = elim (same id "") [
  | true ↦ none
  | false ↦ elim (value_by_id fns id) [
    | none ↦ none
    | some v ↦ elim v.entries [
      | _ ∷ _ ↦ some v
      | [] ↦ elim (nat_eq (length (flow_edges_into fns id)) 1) [
        | true ↦ object_within hops fns (assigned_from fns id)
        | false ↦ none
      ]
    ]
  ]
]

unfoldable pub object_behind : List Function → String → Option Value
object_behind = object_within 4

-- `destructuredUse`, with the value that it is filed under in `e.entryUses`
pub record DestructuredUse : Type 0 where
  pub value_id : String
  pub call : Call
  pub arg : Arg
  pub key : String

-- `destructures`
unfoldable pub destructures : List Param → Bool
destructures [] = false
destructures (p ∷ ps) = if p.destructured then true else destructures ps

-- `indexArgEntries` over the entries of the object behind a value, on its levels of nesting
unfoldable pub arg_entries :
    ℕ → List Function → Call → Arg → Option Value → String → List DestructuredUse
arg_entries zero fns c a obj prefix = []
arg_entries (suc depth) fns c a none prefix = []
arg_entries (suc depth) fns c a (some obj) prefix =
    gather
      (λ (entry : Entry).
        let key = if same prefix "" then entry.key else join prefix (join "." entry.key) in
        let inner = arg_entries depth fns c a (object_behind fns entry.value_id) key in
        if same entry.key "" || same entry.value_id ""
        then []
        else record { value_id = entry.value_id; call = c; arg = a; key = key } ∷ inner)
      obj.entries

-- the uses that one call site files
unfoldable pub call_entries : List Function → Call → List DestructuredUse
call_entries fns c = elim (same c.callee.kind "local") [
  | false ↦ []
  | true ↦ elim (func_by_id fns c.callee.function_id) [
    | none ↦ []
    | some callee ↦ elim (destructures callee.params) [
      | false ↦ []
      | true ↦
          gather
            (λ (a : Arg).
              if same a.value_id ""
              then []
              else arg_entries 3 fns c a (object_behind fns a.value_id) "")
            c.args
    ]
  ]
]

-- `e.entryUses`, which `indexDestructuredArgs` fills
unfoldable pub entry_uses : List Function → String → List DestructuredUse
entry_uses fns id =
    select (λ u. same u.value_id id) (gather (λ fn. gather (call_entries fns) fn.calls) fns)
