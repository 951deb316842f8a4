-- ===== src/Taint/Describe.antt =====
-- core/internal/taint/taint.go: the edges of the hops, and the words for them (describeFlow,
-- displaySymbol).
use sast_engine.Prelude.{[], pos, String, false, none, some, same, if◌then◌else◌}
use Prim.Native.String.{◌++◌ as join}
use sast_engine.Ir.{Loc, Flow, Callee, Arg}
use sast_engine.Reachdef.Split.{decimal}
use sast_engine.Taint.{Edge, Engine}
use sast_engine.Taint.Index.{value_by_id}

-- the edge of a hop, in the fields that all hops set
unfoldable pub hop : String → String → String → Loc → String → Edge
hop from kind desc loc resolution = record {
  from = from;
  kind = kind;
  desc = desc;
  loc = loc;
  symbol = "";
  resolution = resolution;
  literals = [];
  input_arg = pos 0;
  has_input_arg = false;
  site = "";
  converter = "";
}

unfoldable pub describe_flow : Engine → Flow → String
describe_flow e f =
    let target = value_by_id e.functions f.to in
    let name : String = elim target [ none ↦ "" | some v ↦ v.name ] in
    let path : String = elim target [ none ↦ "" | some v ↦ v.path ] in
    if same f.kind "assign"
    then (if same name "" then "assigned" else join "assigned to `" (join name "`"))
    else if same f.kind "template"
    then "interpolated into a template literal"
    else if same f.kind "binary"
    then "concatenated"
    else if same f.kind "property"
    then (if same path "" then "property access" else join "property `" (join path "`"))
    else if same f.kind "return"
    then "returned"
    else if same f.kind "encoder removed"
    then "the template engine's escaping is removed here"
    else f.kind

unfoldable pub display_symbol : Callee → String
display_symbol c = if same c.symbol "" then "<unresolved call>" else c.symbol

-- `binding`
unfoldable pub describe_arg : Arg → String
describe_arg a =
    if same a.name ""
    then join "argument " (decimal a.index a.index)
    else join "argument `" (join a.name "`")
