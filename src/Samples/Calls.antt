-- ===== src/Samples/Calls.antt =====
-- The functions that roots can reach: a test, and the theorem on a small program.
use sast_engine.Prelude.{
  Bool, some, String, ◌≡◌, refl, ◌↔◌, true, false, none, List, [], ◌∷◌, contains, insert, same,
}
use sast_engine.Ir.{Function, Call, Arg, Param}
use sast_engine.Ir.Binding
use sast_engine.Ir.Binding.{bound_param, bound_params, first_plain}
use sast_engine.CallGraph
use sast_engine.CallGraph.{reachable_from, Reached}
use sast_engine.CallGraph.Reachable.{reachable_from_iff}
use sast_engine.Samples.Programs.{function_of, nowhere}

abbrev handed : String → Arg
handed id = record {
  index = 0;
  name = "";
  value_id = "";
  function_id = id;
  value_type = "";
  value_type_origin = "";
  param_index = none;
}

abbrev call_of : String → String → List Arg → Call
call_of kind id args = record {
  id = "";
  loc = nowhere;
  callee = record {
    kind = kind;
    function_id = id;
    possible_function_ids = [];
    symbol = "";
    resolution = "";
    name = "";
  };
  args = args;
  method = "";
  receiver_id = "";
  result_id = "";
  block = "";
  condition_branch = "";
  receiver_type = "";
  receiver_type_origin = "";
  arg_literals = [];
  enumerated_options = [];
}

-- `main` registers a handler with a library, and the handler calls `check`, which calls itself.
abbrev program : List Function
program =
    record (function_of []) {
      id = "main";
      calls = call_of "external" "" (handed "handler" ∷ []) ∷ [];
    }
    ∷ record (function_of []) { id = "handler"; calls = call_of "local" "check" [] ∷ [] }
    ∷ record (function_of []) { id = "check"; calls = call_of "local" "check" [] ∷ [] }
    ∷ record (function_of []) { id = "unused"; calls = [] }
    ∷ []

reached_check :
    (contains (reachable_from program ("main" ∷ [])) "check" ≡ true)
    × (contains (reachable_from program ("main" ∷ [])) "unused" ≡ false)
unfolding contains insert same reachable_from CallGraph.mark_all CallGraph.mark CallGraph.expand
    CallGraph.search_from CallGraph.all_targets CallGraph.or_nothing_seen CallGraph.called
    CallGraph.passed CallGraph.passed_in CallGraph.func_by_id
reached_check = (refl, refl)

reachable_from_iff_example :
    (contains (reachable_from program ("main" ∷ [])) "check" ≡ true)
    ↔ Reached program ("main" ∷ []) "check"
reachable_from_iff_example = reachable_from_iff program ("main" ∷ []) "check"

abbrev param_at : String → Bool → Param
param_at name destructured = record {
  index = 0;
  name = name;
  value_id = name;
  destructured = destructured;
  path = "";
}

-- `function f({ id }, ...)` with a plain name for the same argument after it
abbrev params : List Param
params = param_at "id" true ∷ param_at "rest" false ∷ []

bound_rest : bound_param (handed "") params ≡ some (param_at "rest" false)
unfolding same bound_param Binding.bind_index
bound_rest = refl
