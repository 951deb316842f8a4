-- ===== src/Samples/Resolving.antt =====
-- The calls that complete a promise: tests, and the theorems on a small program.
use sast_engine.Prelude.{String, ◌≡◌, refl, true, false, some, List, [], ◌∷◌, Memᴰ}
use sast_engine.Prelude.{each, insert, contains, same, last_segment, after_last_dot, subst, sym}
use sast_engine.Ir.{Function, Call, Param, Arg}
use sast_engine.CallGraph
use sast_engine.Taint
use sast_engine.Taint.{ResolveTarget}
use sast_engine.Taint.Rules
use sast_engine.Taint.Rules.{Model, CallbackRule}
use sast_engine.Taint.Index
use sast_engine.Taint.Resolve
use sast_engine.Taint.Resolve.{resolve_targets, engine_of}
use sast_engine.Taint.Completing.{Makes, Completes, resolve_targets_sound, resolve_targets_complete}
use sast_engine.Samples.Programs.{function_of}
use sast_engine.Samples.Tainting.{passing, calling, callee_of, name_seed, or_new_state, tainting}
use sast_engine.Taint.Propagate.{propagate}
use sast_engine.Taint.Seeded.{Seed, seeded}

abbrev param_named : String → Param
param_named name = record {
  index = 0;
  name = name;
  value_id = name;
  destructured = false;
  path = "";
}

abbrev handing : String → Arg
handing id = record (passing "") { function_id = id }

abbrev resolving : String → String → Call
resolving id arg = calling id (record (callee_of "unresolved" "" "") { name = "resolve" }) arg ""

-- `function load(stream) { const p = new Promise((resolve) => {`
-- `  resolve(early); stream.on("end", () => resolve(late)); stream.on("x", (resolve) => resolve(own))`
-- `}) }`
abbrev making : Call
making = record (calling "c1" (callee_of "external" "" "Promise") "" "p") {
  args = handing "executor" ∷ [];
}

abbrev load : Function
load = record (function_of []) { id = "load"; calls = making ∷ [] }

abbrev executor : Function
executor = record (function_of []) {
  id = "executor";
  params = param_named "resolve" ∷ [];
  calls =
      resolving "c2" "early"
      ∷ record (calling "c3" (callee_of "external" "" "stream.on") "" "") {
        args = handing "ended" ∷ [];
      }
      ∷ record (calling "c4" (callee_of "external" "" "stream.on") "" "") {
        args = handing "shadowed" ∷ [];
      }
      ∷ [];
}

abbrev ended : Function
ended = record (function_of []) { id = "ended"; calls = resolving "c5" "late" ∷ [] }

abbrev shadowed : Function
shadowed = record (function_of []) {
  id = "shadowed";
  params = param_named "resolve" ∷ [];
  calls = resolving "c6" "own" ∷ [];
}

abbrev program : List Function
program = load ∷ executor ∷ ended ∷ shadowed ∷ []

abbrev promise_rule : CallbackRule
promise_rule = record {
  method = "";
  symbol = "Promise";
  callback_arg = 0;
  callback_param = 0;
  resolver_param = some 0;
  resolver_arg = 0;
  note = "the promise";
}

abbrev promise_model : Model
promise_model = record { sanitizers = []; callbacks = promise_rule ∷ []; persistence = [] }

abbrev promised : ResolveTarget
promised = record { result_id = "p"; arg_index = 0; note = "the promise"; resolution = "resolved" }

-- the definitions that a test opens
unfoldable opened : Unit {0}
unfolding contains insert same each last_segment after_last_dot CallGraph.func_by_id Taint.put
    Rules.resolver_for Index.arg_at Index.param_at Resolve.binds_name Resolve.is_within
    Resolve.reach_function Resolve.is_continuation Resolve.completed Resolve.reach_call
    Resolve.bind_call Resolve.bind_within Resolve.first_frame Resolve.bind_resolver
    Resolve.target_of Resolve.executor_of Resolve.continuation_of Resolve.resolve_call
    Resolve.resolve_targets
opened = tt

targets_found :
    (resolve_targets program promise_model "c2" ≡ promised ∷ [])
    × (resolve_targets program promise_model "c5" ≡ promised ∷ [])
    × (resolve_targets program promise_model "c6" ≡ [])
unfolding opened
targets_found = (refl, refl, refl)

-- The argument of a call that completes the promise classifies the promise.
abbrev early_seed : Seed
early_seed = record name_seed { id = "early" }

promise-classified :
    contains
      (or_new_state (
        propagate
          (engine_of program promise_model)
          5
          (seeded (engine_of program promise_model) (early_seed ∷ [])))).tainted
      "p"
    ≡ true
unfolding opened tainting engine_of
promise-classified = refl

making-Makes : Makes program (promise_rule ∷ []) making executor "resolve" promised
unfolding opened
making-Makes = record {
  rule = promise_rule;
  chosen = refl;
  kept = refl;
  handed = refl;
  bound = refl;
  target = refl;
}

late-found : Memᴰ promised (resolve_targets program promise_model "c5")
late-found = subst (λ ts. Memᴰ promised ts) (sym targets_found.1) (Memᴰ.head refl)

resolve_targets_sound_example : Completes program (promise_rule ∷ []) "c5" promised
resolve_targets_sound_example = resolve_targets_sound program promise_model "c5" promised late-found

resolve_targets_complete_example : Memᴰ promised (resolve_targets program promise_model "c2")
unfolding opened
resolve_targets_complete_example =
    resolve_targets_complete program promise_model load making (resolving "c2" "early") executor
      "resolve" promised (Memᴰ.head refl) (Memᴰ.head refl) making-Makes (Memᴰ.head refl) refl
