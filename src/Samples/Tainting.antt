-- ===== src/Samples/Tainting.antt =====
-- The propagation: tests, and the theorems on a small program.
use sast_engine.Prelude.{
  ◌+◌, ◌*◌, ◌↔◌, ap, inl, inr, is_some, arith, map, Memᴰ, String, ◌≡◌, refl, true, false, Option,
  none, some, List, [], ◌∷◌, contains, insert, same, length,
}
use sast_engine.Prelude.{each, gather, select}
use sast_engine.Ir.{Function, Flow, Call, Callee, Arg, Value}
use sast_engine.Ir.Binding
use sast_engine.CallGraph
use sast_engine.Reachdef.Split
use sast_engine.Taint
use mathlib.Core.List.Memᴰ.{cases_cons, not-nil}
use sast_engine.Taint.{Engine, State, chain_score}
use sast_engine.Taint.Rules
use sast_engine.Taint.Rules.{SanitizerRule, StoreAccess}
use sast_engine.Taint.Index
use sast_engine.Taint.Entered
use sast_engine.Taint.Describe
use sast_engine.Taint.Propagate
use sast_engine.Taint.Propagate.{propagate}
use sast_engine.Taint.Seeded
use sast_engine.Taint.Seeded.{Seed, seeded, seed_ids, new_state}
use sast_engine.Taint.Targets.{targets}
use sast_engine.Taint.Leads.{Carried}
use sast_engine.Taint.Total.{propagate_total, propagate_sound}
use sast_engine.Taint.Chain.{IsTraced}
use sast_engine.Taint.Traced.{propagate-IsTraced}
use sast_engine.Taint.Path
use sast_engine.Taint.Path.{Hop, trace_path, origin_of, confidence_of}
use sast_engine.Taint.Evidence.{Kept}
use sast_engine.Taint.Origin.{trace_path_total, origin_of_total}
use sast_engine.Taint.Closed
use sast_engine.Taint.Fixed
use sast_engine.Taint.Fixed.{SurelyCarried, propagate_complete}
use sast_engine.Taint.Confident.{HasHop, confidence_of_iff}
use sast_engine.Samples.Programs.{function_of, nowhere}

abbrev pub passing : String → Arg
passing id = record {
  index = 0;
  name = "";
  value_id = id;
  function_id = "";
  value_type = "";
  value_type_origin = "";
  param_index = none;
}

abbrev pub calling : String → Callee → String → String → Call
calling id callee arg result = record {
  id = id;
  loc = nowhere;
  callee = callee;
  args = passing arg ∷ [];
  method = "";
  receiver_id = "";
  result_id = result;
  block = "";
  condition_branch = "";
  receiver_type = "";
  receiver_type_origin = "";
  arg_literals = [];
  enumerated_options = [];
}

abbrev pub callee_of : String → String → String → Callee
callee_of kind id symbol = record {
  kind = kind;
  function_id = id;
  possible_function_ids = [];
  symbol = symbol;
  resolution = "resolved";
  name = "";
}

abbrev value_of : String → Value
value_of id = record {
  id = id;
  kind = "local";
  name = id;
  loc = nowhere;
  base = "";
  path = "";
  literal = "";
  entries = [];
}

abbrev flow_of : String → String → Flow
flow_of from to = record { from = from; to = to; kind = "assign"; loc = nowhere; block = "" }

-- `handler(name) { const who = name; const clean = escape(who); const q = quote(clean); db.query(q) }`
-- and `quote(text) { return text }`, which is also called with a constant
abbrev handler : Function
handler = record (function_of []) {
  id = "handler";
  params =
      record { index = 0; name = "name"; value_id = "name"; destructured = false; path = "" } ∷ [];
  values = value_of "name" ∷ value_of "who" ∷ value_of "clean" ∷ value_of "q" ∷ [];
  flows = flow_of "name" "who" ∷ [];
  calls =
      calling "c1" (callee_of "external" "" "lib.escape") "who" "clean"
      ∷ calling "c2" (callee_of "local" "quote" "") "clean" "q"
      ∷ calling "c3" (callee_of "external" "" "db.query") "q" "rows"
      ∷ [];
}

abbrev quote : Function
quote = record (function_of []) {
  id = "quote";
  name = "quote";
  params =
      record { index = 0; name = "text"; value_id = "text"; destructured = false; path = "" } ∷ [];
  values = value_of "text" ∷ value_of "banner" ∷ value_of "title" ∷ [];
  calls = calling "c4" (callee_of "local" "quote" "") "banner" "title" ∷ [];
  returns = "text" ∷ [];
}

abbrev engine : Engine
engine = record {
  functions = handler ∷ quote ∷ [];
  model = record {
    sanitizers = record { symbol = "lib.escape"; method = ""; after_symbol = [] } ∷ [];
    callbacks = [];
    persistence = [];
  };
  resolves = λ id. [];
}

abbrev pub name_seed : Seed
name_seed = record {
  id = "name";
  desc = "source: name (request input)";
  loc = nowhere;
  resolution = "resolved";
  converter = "";
  fields = none;
}

abbrev seeds : List Seed
seeds = name_seed ∷ []

-- the definitions that a test opens
unfoldable pub tainting : Unit {0}
unfolding contains insert same each gather select propagate seeded new_state Binding.bound_params
    Binding.bind_index Binding.bound_param Binding.binds CallGraph.func_by_id Split.decimal
    Split.digit Taint.put Taint.chain_score Taint.is_transform Taint.edge_via Taint.edge_converter
    Taint.edge_score Taint.is_settled Taint.keep_path Taint.mark_tainted Taint.has_record
    Taint.carries_record Rules.sanitizer_for Rules.matches_method Rules.callback_for
    Rules.inward_rule Rules.store_read_at Rules.store_access_at Rules.store_matches Index.flows_from
    Index.last_value Index.value_by_id Index.owner_of_value Index.call_sites_of Index.returns_of
    Index.used_in Index.arg_uses Index.receiver_uses Index.is_named Index.flow_edges_into
    Index.last_assigned Index.assigned_from Index.param_at Index.arg_at Index.object_within
    Index.object_behind Index.destructures Index.arg_entries Index.call_entries Index.entry_uses
    Entered.record_hop_carries Entered.param_index Entered.entered_within
    Entered.taint_entered_via_param Entered.passed_at_param Entered.passes_taint
    Entered.call_site_passes_taint Entered.all_filed Entered.arg_shape_stated Entered.binding_reads
    Describe.hop Describe.describe_flow Describe.display_symbol Describe.describe_arg
    Propagate.flow_step Propagate.destructured_step Propagate.through_destructured_arg
    Propagate.bind_step Propagate.resolve_step Propagate.outside_step Propagate.arg_step
    Propagate.through_call Propagate.callback_target Propagate.into_callback
    Propagate.through_receiver Propagate.hand_back Propagate.site_step Propagate.through_return
    Propagate.visit Path.hop_of Path.trace_within Path.trace_path Path.origin_within Path.origin_of
    Path.worst_of Path.confidence_of Seeded.seed_edge Seeded.with_fields Seeded.seed_value
tainting = tt

abbrev result : Option State
result = propagate engine 20 (seeded engine seeds)

abbrev pub or_new_state : Option State → State
or_new_state none = new_state
or_new_state (some r) = r

or_new_state-some : (o : Option State) → is_some o ≡ true → o ≡ some (or_new_state o)
or_new_state-some none h = cc
or_new_state-some (some r) h = refl

abbrev final : State
final = or_new_state result

tainted_values : final.tainted ≡ ("rows" ∷ "q" ∷ "text" ∷ "clean" ∷ "who" ∷ "name" ∷ [])
unfolding tainting
tainted_values = refl

abbrev steps : List Hop
steps = elim (trace_path final "rows") [ none ↦ [] | some (path, o) ↦ path ]

abbrev descriptions : List String
descriptions =
    "source: name (request input)" ∷ "assigned to `who`" ∷ "through lib.escape()"
    ∷ "passed as argument 0 to quote()" ∷ "returned from quote()" ∷ "through db.query()" ∷ []

-- the path goes back through `quote` and the escape, and leaves by the call that it came in by
path_of_rows :
    (trace_path final "rows" ≡ some (steps, "name"))
    × (origin_of final ("name" ∷ []) "rows" ≡ some "name")
    × (map (λ (h : Hop). h.description) steps ≡ descriptions)
unfolding tainting
path_of_rows = (refl, refl, refl)

title_is_clean : contains final.tainted "title" ≡ false
unfolding tainting
title_is_clean = refl

finished : propagate engine 20 (seeded engine seeds) ≡ some final
unfolding tainting
finished = or_new_state-some result refl

rows-tainted : contains final.tainted "rows" ≡ true
unfolding tainting
rows-tainted = refl

propagate_total_example :
    (r : State) × (propagate engine (1 + 4 * length (targets engine)) (seeded engine seeds)
      ≡ some r)
propagate_total_example =
    propagate_total engine seeds (1 + 4 * length (targets engine)) (omega arith)

propagate_sound_example : Carried engine (seed_ids seeds) "rows"
propagate_sound_example = propagate_sound engine seeds 20 final finished "rows" rows-tainted

rowless : (s : Seed) → Memᴰ s seeds → s.fields ≡ none
rowless s m = elim (cases_cons m) [
  | inl e ↦ ap (λ (w : Seed). w.fields) e
  | inr r ↦ absurd (not-nil r)
]

-- `name` flows to `who`, which a library takes.
who_clean : SurelyCarried engine seeds "clean"
unfolding tainting
who_clean =
    Fixed.hop "who" "clean"
      (Fixed.hop "name" "who" (Fixed.root name_seed (Memᴰ.head refl) refl)
        (Closed.flow (flow_of "name" "who") (Memᴰ.head refl)) refl)
      (Closed.through (calling "c1" (callee_of "external" "" "lib.escape") "who" "clean")
        (passing "who") (Memᴰ.head refl) (Memᴰ.head refl) refl refl refl refl)
      refl

propagate_complete_example : contains final.tainted "clean" ≡ true
propagate_complete_example =
    propagate_complete engine seeds rowless 20 final finished "clean" who_clean

propagate-IsTraced_example : IsTraced engine (seed_ids seeds) final
propagate-IsTraced_example = propagate-IsTraced engine seeds 20 final finished

trace_path_total_example :
    (path : List Hop) × (o : String) × (trace_path final "rows" ≡ some (path, o))
    × (contains (seed_ids seeds) o ≡ true)
    × Kept engine (seed_ids seeds) final.pred path o "rows"
trace_path_total_example = trace_path_total engine seeds 20 final finished "rows" rows-tainted

origin_of_total_example :
    (o : String) × (origin_of final (seed_ids seeds) "rows" ≡ some o)
    × (contains (seed_ids seeds) o ≡ true)
    × Carried engine (o ∷ []) "rows"
origin_of_total_example = origin_of_total engine seeds 20 final finished "rows" rows-tainted

confidence_of_iff_example :
    ((confidence_of steps ≡ Path.low) ↔ HasHop "dynamic-unresolved" steps)
    × ((confidence_of steps ≡ Path.high)
        ↔ (¬ HasHop "dynamic-unresolved" steps × ¬ HasHop "probable" steps))
confidence_of_iff_example = confidence_of_iff steps
