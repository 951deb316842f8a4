-- ===== src/Views/Mapping.antt =====
-- core/internal/flow/context.go: which names a mapping value carries (context, mapping, constructed,
-- calleeName, calleeFunctions). The values that are being resolved are passed down: the source puts a
-- value on `open` before its inner calls and takes it off after them.
use sast_engine.Prelude.{
  ℕ, zero, suc, String, true, false, not, ◌&&◌, ◌||◌, Option, none, some, List, [], ◌∷◌, StrSet,
  contains, insert, same, if◌then◌else◌, last_segment,
}
use sast_engine.Ir.{Function, Flow, Call, Callee, Arg, Entry, Value, Write}
use sast_engine.CallGraph.{func_by_id}
use sast_engine.Taint.Index.{value_by_id, owner_of_value}
use sast_engine.Views.{Names, no_names, bind, merge, Render}

unfoldable pub callee_name : Call → String
callee_name c = last_segment (
    if not (same c.method "")
    then c.method
    else if same c.callee.name ""
    then c.callee.symbol
    else c.callee.name)

unfoldable pub callee_functions : Callee → List String
callee_functions c = if same c.function_id "" then c.possible_function_ids else c.function_id ∷ []

-- the keys of a mapping literal
unfoldable pub entry_names : List Entry → Names → Names
entry_names [] out = out
entry_names (x ∷ xs) out =
    entry_names xs (if same x.key "" || same x.value_id "" then out else bind x.key x.value_id out)

-- the keywords of `dict(...)`
unfoldable pub keyword_names : List Arg → Names → Names
keyword_names [] out = out
keyword_names (a ∷ args) out =
    keyword_names args
      (if same a.name "" || same a.value_id "" then out else bind a.name a.value_id out)

-- what is written into a mapping under a literal key
unfoldable pub written_names : String → List Write → Names → Names
written_names id [] out = out
written_names id (w ∷ ws) out = written_names id ws (
    if same w.base id && not (same w.path "") && not (same w.from "")
    then bind w.path w.from out
    else out)

-- the loops that merge what other values carry, which `inner` answers
module _ (inner : String → Names) where
  unfoldable pub flowed_names : String → List Flow → Names → Names
  flowed_names id [] out = out
  flowed_names id (f ∷ fs) out =
      flowed_names id fs
        (if same f.to id && not (same f.from id) then merge out (inner f.from) else out)

  unfoldable pub returned_names : List String → Names → Names
  returned_names [] out = out
  returned_names (ret ∷ rets) out = returned_names rets (merge out (inner ret))

  unfoldable pub built_names : List Function → List String → Names → Names
  built_names fns [] out = out
  built_names fns (id ∷ ids) out =
      built_names fns ids
        (elim (func_by_id fns id) [ none ↦ out | some callee ↦ returned_names callee.returns out ])

  unfoldable pub constructed : List Function → Call → Names
  constructed fns c =
      if same (callee_name c) "dict"
      then keyword_names c.args no_names
      else built_names fns (callee_functions c.callee) no_names

  unfoldable pub updated_names : List Arg → Names → Names
  updated_names [] out = out
  updated_names (a ∷ args) out =
      updated_names args
        (if same a.name "" && not (same a.value_id "") then merge out (inner a.value_id) else out)

  unfoldable pub call_names : List Function → String → List Call → Names → Names
  call_names fns id [] out = out
  call_names fns id (c ∷ cs) out =
      let made = if same c.result_id id then merge out (constructed fns c) else out in
      call_names fns id cs (
        if same c.receiver_id id && same c.method "update" then updated_names c.args made else made)

unfoldable pub literal_names : Option Value → Names
literal_names none = no_names
literal_names (some v) = entry_names v.entries no_names

-- `mapping`, on its hops
unfoldable pub mapping : List Function → ℕ → StrSet → String → Names
mapping fns zero opened id = no_names
mapping fns (suc hops) opened id = elim (same id "" || contains opened id) [
  | true ↦ no_names
  | false ↦ elim (owner_of_value fns id) [
    | none ↦ no_names
    | some fn ↦
        let inner = mapping fns hops (insert id opened) in
        written_names id fn.writes (
          call_names inner fns id fn.calls
            (flowed_names inner id fn.flows (literal_names (value_by_id fns id))))
  ]
]

-- `mappingHops`
abbrev pub mapping_hops : ℕ
mapping_hops = 3

unfoldable pub context_from : List Function → List String → Names → Names
context_from fns [] out = out
context_from fns (id ∷ ids) out = context_from fns ids (merge out (mapping fns mapping_hops [] id))

-- `context`
unfoldable pub context : List Function → Render → Names
context fns r = context_from fns r.context_values no_names
