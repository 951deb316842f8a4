-- ===== src/Views/Join.antt =====
-- core/internal/flow/flow.go: the sinks that a render writes into the function it stands in (JoinViews,
-- render, write, id). The source changes the functions in place; here they are passed on.
use sast_engine.Prelude.{
  ℕ, suc, String, Bool, true, false, ◌||◌, Option, none, some, List, [], ◌∷◌, ◌++◌, StrSet,
  contains, insert, same, if◌then◌else◌, length, map,
}
use Prim.Native.String.{◌++◌ as join}
use sast_engine.Ir.{Loc, Function, Value, Flow, Call}
use sast_engine.CallGraph.{func_by_id}
use sast_engine.Reachdef.Split.{decimal}
use sast_engine.Views.{View, ViewRead, Render}
use sast_engine.Views.Reach.{cut, rebind_path, view_by_id, ReachedView, reach}
use sast_engine.Views.Resolve.{Resolved, sort_texts, resolve_renders}

pub record Program : Type 0 where
  pub functions : List Function
  pub views : List View
  pub renders : List Render
  pub views_joined : Bool

pub record Report : Type 0 where
  pub views : ℕ
  pub renders : ℕ
  pub resolved : ℕ
  pub sinks : ℕ

-- what the writer changes, with the sinks counted that are written
pub record Writer : Type 0 where
  pub functions : List Function
  pub seen : StrSet
  pub n : ℕ
  pub written : ℕ

unfoldable pub new_id : String → String → ℕ → String
new_id fid kind n = join fid (join "$tpl" (join kind (decimal n n)))

unfoldable pub sink_symbol : ViewRead → String
sink_symbol read =
    if same read.context "url-target"
    then "<template>.url-target"
    else if same read.context "url-part"
    then "<template>.url-part"
    else if same read.context "script"
    then (if read.escaped then "<template>.escaped" else "<template>.script")
    else if read.escaped
    then "<template>.escaped"
    else "<template>.unescaped"

-- what is appended to a function, and the value that the next piece takes up
pub record Piece : Type 0 where
  pub values : List Value
  pub flows : List Flow
  pub value : String
  pub n : ℕ

unfoldable pub value_at : String → String → Loc → String → String → String → Value
value_at id kind loc name base path = record {
  id = id;
  kind = kind;
  name = name;
  loc = loc;
  base = base;
  path = path;
  literal = "";
  entries = [];
}

-- the read below the root
unfoldable pub property_piece : String → ViewRead → String → String → String → ℕ → Piece
property_piece fid read src rest block n =
    let id = new_id fid "v" (suc n) in
    if same rest "" then record { values = []; flows = []; value = src; n = n } else record {
      values = value_at id "property" read.loc rest src rest ∷ [];
      flows = record { from = src; to = id; kind = "property"; loc = read.loc; block = block } ∷ [];
      value = id;
      n = suc n;
    }

-- the marker that took the escaping off
unfoldable pub marker_piece : String → ViewRead → String → Piece → Piece
marker_piece fid read block p = elim read.removed_at [
  | none ↦ p
  | some at_marker ↦ elim read.escaped [
    | true ↦ p
    | false ↦
        let id = new_id fid "v" (suc p.n) in
        record {
          values = p.values ++ value_at id "local" at_marker "escaping removed here" "" "" ∷ [];
          flows =
              p.flows
              ++ record {
                from = p.value;
                to = id;
                kind = "encoder removed";
                loc = at_marker;
                block = block;
              }
                ∷ [];
          value = id;
          n = suc p.n;
        }
  ]
]

unfoldable pub sink_call : String → String → String → String → Loc → String → Call
sink_call id symbol value result loc block = record {
  id = id;
  loc = loc;
  callee = record {
    kind = "external";
    function_id = "";
    possible_function_ids = [];
    symbol = symbol;
    resolution = "resolved";
    name = "";
  };
  args =
      record {
        index = 0;
        name = "";
        value_id = value;
        function_id = "";
        value_type = "";
        value_type_origin = "";
        param_index = none;
      }
      ∷ [];
  method = "";
  receiver_id = "";
  result_id = result;
  block = block;
  condition_branch = "";
  receiver_type = "";
  receiver_type_origin = "";
  arg_literals = [];
  enumerated_options = [];
}

-- the function with what is appended to it
unfoldable pub append_sink : ViewRead → String → Piece → Function → Function
append_sink read block p fn =
    let result = new_id fn.id "v" (suc p.n) in
    let symbol = sink_symbol read in
    record fn {
      values = fn.values ++ (p.values ++ value_at result "call-result" read.loc symbol "" "" ∷ []);
      flows = fn.flows ++ p.flows;
      calls =
          fn.calls
          ++ sink_call (new_id fn.id "c" (suc (suc p.n))) symbol p.value result read.loc block ∷ [];
    }

-- a change of the function that `byID` answers: the last with the name
unfoldable pub change_last : String → (Function → Function) → List Function → List Function
change_last id f [] = []
change_last id f (fn ∷ fns) =
    let rest = change_last id f fns in
    elim (func_by_id fns id) [
      | some later ↦ fn ∷ rest
      | none ↦ if same fn.id id then f fn ∷ fns else fn ∷ fns
    ]

-- `write`
unfoldable pub write_sink : String → ViewRead → String → String → String → Writer → Writer
write_sink fid read src rest block w =
    let p = marker_piece fid read block (property_piece fid read src rest block w.n) in
    record {
      functions = change_last fid (append_sink read block p) w.functions;
      seen = w.seen;
      n = suc (suc p.n);
      written = suc w.written;
    }

-- `Loc.String`
unfoldable pub loc_string : Loc → String
loc_string l =
    join l.file (join ":" (join (decimal l.line l.line) (join ":" (decimal l.column l.column))))

unfoldable pub sink_key : String → ViewRead → String → String
sink_key fid read src = join fid (join "\0" (join (loc_string read.loc) (join "\0" src)))

-- the loop over the reads of a view that is reached
unfoldable pub render_read : String → Resolved → ReachedView → ViewRead → Writer → Writer
render_read fid r reached read w =
    let (root, rest) = cut (rebind_path read.path reached.rebind) in
    elim (r.bound root) [
      | none ↦ w
      | some src ↦ elim (same src "" || contains w.seen (sink_key fid read src)) [
        | true ↦ w
        | false ↦
            write_sink fid read src rest r.block
              record w { seen = insert (sink_key fid read src) w.seen }
      ]
    ]

unfoldable pub render_reads : String → Resolved → ReachedView → List ViewRead → Writer → Writer
render_reads fid r reached [] w = w
render_reads fid r reached (read ∷ reads) w =
    render_reads fid r reached reads (render_read fid r reached read w)

unfoldable pub render_views : List View → String → Resolved → List ReachedView → Writer → Writer
render_views views fid r [] w = w
render_views views fid r (reached ∷ rs) w =
    render_views views fid r rs (elim (view_by_id views reached.id) [
      | none ↦ w
      | some v ↦ render_reads fid r reached v.reads w
    ])

-- `render`; `none` if the walk over the views runs out of fuel
unfoldable pub render : ℕ → List View → Resolved → Writer → Option Writer
render fuel views r w = elim (func_by_id w.functions r.function) [
  | none ↦ some w
  | some fn ↦ elim (reach views fuel r.view) [
    | none ↦ none
    | some reached ↦ some (render_views views fn.id r reached w)
  ]
]

unfoldable pub render_all : ℕ → List View → List Resolved → Writer → Option Writer
render_all fuel views [] w = some w
render_all fuel views (r ∷ rs) w = elim (render fuel views r w) [
  | none ↦ none
  | some w' ↦ render_all fuel views rs w'
]

-- the test that leaves a document alone
unfoldable pub is_left : Program → Bool
is_left p = elim p.views [
  | [] ↦ true
  | _ ∷ _ ↦ elim p.renders [ [] ↦ true | _ ∷ _ ↦ p.views_joined ]
]

unfoldable pub resolved_renders : Program → List Resolved
resolved_renders p =
    resolve_renders p.functions (sort_texts (map (λ (v : View). v.id) p.views)) p.renders

unfoldable pub report_of : Program → ℕ → ℕ → Report
report_of p resolved sinks = record {
  views = length p.views;
  renders = length p.renders;
  resolved = resolved;
  sinks = sinks;
}

unfoldable pub join_views : ℕ → Program → Option (Program × Report)
join_views fuel p = elim (is_left p) [
  | true ↦ some (p, report_of p 0 0)
  | false ↦
      elim (render_all fuel p.views (resolved_renders p)
        record { functions = p.functions; seen = []; n = 0; written = 0 }) [
          | none ↦ none
          | some w ↦ some (
            record p { functions = w.functions; views_joined = true },
            report_of p (length (resolved_renders p)) w.written,
          )
        ]
]
