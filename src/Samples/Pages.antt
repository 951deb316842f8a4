-- ===== src/Samples/Pages.antt =====
-- Views and renders: tests, and the theorems on small programs.
use sast_engine.Prelude.{
  ◌+◌, ◌||◌, ℕ, String, ◌≡◌, refl, Bool, true, false, Option, none, some, is_some, List, [], ◌∷◌,
  contains, insert, same, map, select, gather,
}
use sast_engine.Ir.{Function, Call, Value, Entry}
use sast_engine.CallGraph
use sast_engine.Reachdef.Split
use sast_engine.Taint.Index
use sast_engine.Views
use sast_engine.Views.{View, Include, ViewRead, Binding, Render}
use sast_engine.Views.Mapping
use sast_engine.Views.Mapping.{mapping}
use sast_engine.Views.Carries.{Carries}
use sast_engine.Views.Given.{mapping-IsGiven}
use sast_engine.Views.Latest
use sast_engine.Views.Latest.{mapping-last_write}
use sast_engine.Views.Reach
use sast_engine.Views.Reach.{reach, ReachedView}
use sast_engine.Views.Endless.{reach-endless}
use sast_engine.Views.Resolve
use sast_engine.Views.Join
use sast_engine.Views.Join.{Program, Report, join_views}
use sast_engine.Views.Joined.{Extended, join_views-Extended}
use sast_engine.Views.Counted.{calls_in, join_views-sinks}
use sast_engine.Samples.Programs.{function_of, nowhere}

abbrev value_of : String → List Entry → Value
value_of id entries = record {
  id = id;
  kind = "local";
  name = id;
  loc = nowhere;
  base = "";
  path = "";
  literal = "";
  entries = entries;
}

-- `ctx = {"query": q, "user": u}; ctx["user"] = name; render("page.html", ctx)`
abbrev search_page : Function
search_page = record (function_of []) {
  id = "search";
  values =
      value_of "q" []
      ∷ value_of "literal"
          (record { key = "query"; value_id = "q" } ∷ record { key = "user"; value_id = "u" } ∷ [])
      ∷ value_of "ctx" []
      ∷ [];
  flows = record { from = "literal"; to = "ctx"; kind = "assign"; loc = nowhere; block = "" } ∷ [];
  writes = record { base = "ctx"; path = "user"; from = "name" } ∷ [];
}

abbrev reading : String → Bool → ℕ → ViewRead
reading path escaped line = record {
  path = path;
  escaped = escaped;
  context = "";
  removed_at = none;
  loc = record nowhere { line = line };
}

-- `{% for hit in hits %}{% include "hit.html" %}{% endfor %}`
abbrev page : View
page = record {
  id = "page.html";
  extends = [];
  includes = record { view = "hit.html"; rebind = ("hit", "query.hits") ∷ [] } ∷ [];
  reads = reading "user" true 1 ∷ reading "query.text" false 2 ∷ reading "nothing" false 3 ∷ [];
}

abbrev hit : View
hit = record {
  id = "hit.html";
  extends = [];
  includes = [];
  reads = reading "hit.title" false 4 ∷ [];
}

abbrev program : Program
program = record {
  functions = search_page ∷ [];
  views = page ∷ hit ∷ [];
  renders =
      record {
        view = "page.html";
        name = "page.html";
        from_param = "";
        forwards_keywords = false;
        context_values = "ctx" ∷ [];
        function_id = "search";
        loc = nowhere;
        block = "";
        bindings = [];
      }
      ∷ [];
  views_joined = false;
}

-- the definitions that a test opens
unfoldable joining : Unit {0}
unfolding contains insert same select gather CallGraph.func_by_id Split.decimal Split.digit
    Index.last_value Index.value_by_id Index.owner_of_value Index.call_sites_of Views.no_names
    Views.bind Views.merge Mapping.callee_name Mapping.callee_functions Mapping.entry_names
    Mapping.keyword_names Mapping.written_names Mapping.flowed_names Mapping.returned_names
    Mapping.built_names Mapping.constructed Mapping.updated_names Mapping.call_names
    Mapping.literal_names Mapping.mapping Mapping.context_from Mapping.context Latest.last_write
    Reach.cut Reach.rebound Reach.rebind_path Reach.compose Reach.insert_key Reach.sort_keys
    Reach.written_pairs Reach.fingerprint Reach.view_by_id Reach.visit_key Reach.walk_each
    Reach.walk Reach.reach Resolve.bindings_of Resolve.insert_text Resolve.sort_texts
    Resolve.resolve_render Resolve.resolve_renders Resolve.trim_left Resolve.names_view
    Resolve.in_templates Resolve.only Resolve.resolve_name Join.new_id Join.sink_symbol
    Join.value_at Join.property_piece Join.marker_piece Join.sink_call Join.append_sink
    Join.change_last Join.write_sink Join.loc_string Join.sink_key Join.render_read
    Join.render_reads Join.render_views Join.render Join.render_all Join.is_left
    Join.resolved_renders Join.report_of Join.join_views
joining = tt

abbrev fns : List Function
fns = search_page ∷ []

names_of_ctx :
    (mapping fns 3 [] "ctx" "query" ≡ some "q") × (mapping fns 3 [] "ctx" "user" ≡ some "name")
unfolding joining
names_of_ctx = (refl, refl)

mapping-IsGiven_example : Carries fns "ctx" "query" "q"
mapping-IsGiven_example = mapping-IsGiven fns 3 [] "ctx" "query" "q" names_of_ctx.0

last_user : Latest.last_write "ctx" "user" search_page.writes ≡ some "name"
unfolding joining
last_user = refl

owns_ctx : Index.owner_of_value fns "ctx" ≡ some search_page
unfolding joining
owns_ctx = refl

ctx_goes_on : (same "ctx" "" || contains [] "ctx") ≡ false
unfolding joining
ctx_goes_on = refl

user_named : same "user" "" ≡ false
unfolding joining
user_named = refl

mapping-last_write_example : mapping fns 3 [] "ctx" "user" ≡ some "name"
mapping-last_write_example =
    mapping-last_write fns 2 [] "ctx" "user" "name" search_page ctx_goes_on owns_ctx user_named
      last_user

abbrev result : Option (Program × Report)
result = join_views 10 program

abbrev or_program : Option (Program × Report) → Program × Report
or_program none = (program, Join.report_of program 0 0)
or_program (some r) = r

or_program-some : (o : Option (Program × Report)) → is_some o ≡ true → o ≡ some (or_program o)
or_program-some none h = cc
or_program-some (some r) h = refl

abbrev joined : Program
joined = (or_program result).0

abbrev report : Report
report = (or_program result).1

-- the user, escaped; a field of the query, not escaped; and the field of the loop in the other view
joined_report : report ≡ record { views = 2; renders = 1; resolved = 1; sinks = 3 }
unfolding joining
joined_report = refl

abbrev symbols_of : List Function → List (List String)
symbols_of fns = map (λ (fn : Function). map (λ (c : Call). c.callee.symbol) fn.calls) fns

sinks_written :
    symbols_of joined.functions
    ≡ (("<template>.escaped" ∷ "<template>.unescaped" ∷ "<template>.unescaped" ∷ []) ∷ [])
unfolding joining
sinks_written = refl

finished : join_views 10 program ≡ some (joined, report)
unfolding joining
finished = or_program-some result refl

join_views-Extended_example :
    Extended program.functions joined.functions
    × (joined.views ≡ program.views)
    × (joined.renders ≡ program.renders)
    × ((again : ℕ) → join_views again joined ≡ some (joined, Join.report_of joined 0 0))
join_views-Extended_example = join_views-Extended 10 program joined report finished

join_views-sinks_example : calls_in joined.functions ≡ calls_in program.functions + report.sinks
join_views-sinks_example = join_views-sinks 10 program joined report finished

-- `{{ node.title }}{% for node in node.children %}{% include "tree.html" %}{% endfor %}`
abbrev tree : View
tree = record {
  id = "tree.html";
  extends = [];
  includes = record { view = "tree.html"; rebind = ("node", "node.children") ∷ [] } ∷ [];
  reads = reading "node.title" true 5 ∷ [];
}

tree_known : Reach.view_by_id (tree ∷ []) "tree.html" ≡ some tree
unfolding joining
tree_known = refl

tree_below : Reach.cut "node.children" ≡ ("node", "children")
unfolding joining
tree_below = refl

children_named : same "children" "" ≡ false
unfolding joining
children_named = refl

reach-endless_example : reach (tree ∷ []) 100 "tree.html" ≡ none
reach-endless_example =
    reach-endless (tree ∷ []) "tree.html" "node" "node.children" "children" tree tree_known refl
      refl tree_below children_named 100
