-- ===== src/Views/Resolve.antt =====
-- core/internal/flow/flow.go: which view a render names, and what its names are bound to (resolveRenders,
-- atCallSites, keywordArgs, bindingsOf, resolveName).
use sast_engine.Prelude.{
  ℕ, zero, suc, ℤ, pos, negsuc, String, Bool, true, false, not, ◌&&◌, ◌||◌, Option, none, some,
  List, [], ◌∷◌, same, is_some, if◌then◌else◌, ltb, nat_eq, select, gather, contains_text,
  has_suffix, length,
}
use Prim.Native.String.{len, slice, compare, ◌++◌ as join}
use Prim.Native.Nat.{Ordering}
use text.Mathlib.Text.{starts_with}
use sast_engine.Ir.{Loc, Function, Call, Arg, Param}
use sast_engine.CallGraph.{func_by_id}
use sast_engine.Taint.Index.{value_by_id, call_sites_of}
use sast_engine.Views.{Names, no_names, bind, merge, Binding, Render}
use sast_engine.Views.Mapping.{context}

pub record Resolved : Type 0 where
  pub view : String
  pub name : String
  pub function : String
  pub loc : Loc
  pub block : String
  pub bound : Names

unfoldable pub bindings_of : List Binding → Names → Names
bindings_of [] into = into
bindings_of (b ∷ bs) into = bindings_of bs (bind b.name b.value_id into)

-- `sort.Strings`
unfoldable pub insert_text : String → List String → List String
insert_text s [] = s ∷ []
insert_text s (t ∷ ts) =
    let rest = insert_text s ts in elim (compare s t) [ Ordering.gt ↦ t ∷ rest | _ ↦ s ∷ t ∷ ts ]

unfoldable pub sort_texts : List String → List String
sort_texts [] = []
sort_texts (s ∷ ts) = insert_text s (sort_texts ts)

-- `strings.TrimLeft(name, "./")`, on the text's length
unfoldable pub trim_left : ℕ → String → String
trim_left zero name = name
trim_left (suc fuel) name = elim (starts_with name "." || starts_with name "/") [
  | true ↦ trim_left fuel (slice name 1 (len name))
  | false ↦ name
]

unfoldable pub names_view : String → String → Bool
names_view want id = same id want || has_suffix id (join "/" want)

unfoldable pub in_templates : String → Bool
in_templates id = starts_with id "templates/" || contains_text id "/templates/"

-- the only one of some names, or the empty text
unfoldable pub only : List String → String
only [] = ""
only (id ∷ []) = id
only (id ∷ j ∷ ids) = ""

unfoldable pub resolve_name : List String → String → String
resolve_name ids name =
    let want = trim_left (len name) name in
    let hits = select (names_view want) ids in
    if contains_text name ".." || same want ""
    then ""
    else if nat_eq (length hits) 1
    then only hits
    else only (select in_templates hits)

-- a keyword is recorded under a negative position that is above -1000
unfoldable pub is_keyword : ℤ × String → Bool
is_keyword (pos n, written) = false
is_keyword (negsuc n, written) = ltb n 999 && contains_text written "="

unfoldable pub any_keyword : List (ℤ × String) → Bool
any_keyword [] = false
any_keyword (l ∷ ls) = if is_keyword l then true else any_keyword ls

unfoldable pub options_enumerated : List ℤ → Bool
options_enumerated [] = false
options_enumerated (i ∷ is) = elim i [
  | pos n ↦ options_enumerated is
  | negsuc n ↦ if nat_eq n 0 then true else options_enumerated is
]

unfoldable pub named_args : List Function → List Arg → Names → Names
named_args fns [] out = out
named_args fns (a ∷ args) out = named_args fns args (
    if not (same a.name "") && not (same a.value_id "") && is_some (value_by_id fns a.value_id)
    then bind a.name a.value_id out
    else out)

unfoldable pub keyword_args : Call → List Function → Names
keyword_args c fns =
    if not (options_enumerated c.enumerated_options) || not (any_keyword c.arg_literals)
    then no_names
    else named_args fns c.args no_names

-- the index of the first parameter with a name
unfoldable pub index_of_param : List Param → String → Option ℕ
index_of_param [] name = none
index_of_param (p ∷ ps) name =
    let rest = index_of_param ps name in if same p.name name then some p.index else rest

-- `c.ArgLiterals[index]`
unfoldable pub literal_at : List (ℤ × String) → ℕ → Option String
literal_at [] index = none
literal_at ((pos n, written) ∷ ls) index =
    let rest = literal_at ls index in if nat_eq n index then some written else rest
literal_at ((negsuc n, written) ∷ ls) index = literal_at ls index

-- `ix.OwnerOfCall`
unfoldable pub has_call : List Call → String → Bool
has_call [] id = false
has_call (c ∷ cs) id = if same c.id id then true else has_call cs id

unfoldable pub owner_of_call : List Function → String → Option Function
owner_of_call [] id = none
owner_of_call (fn ∷ fns) id = elim (owner_of_call fns id) [
  | some later ↦ some later
  | none ↦ if has_call fn.calls id then some fn else none
]

-- the loop of `atCallSites`, for one call
unfoldable pub at_call_site : List Function → List String → Render → ℕ → Call → List Resolved
at_call_site fns ids r index c = elim (literal_at c.arg_literals index) [
  | none ↦ []
  | some name ↦
      let view = resolve_name ids name in
      let own = bindings_of r.bindings (context fns r) in
      if same name "?" || same name "" || same view "" then [] else elim (owner_of_call fns c.id) [
        | none ↦ []
        | some caller ↦
            record {
              view = view;
              name = name;
              function = caller.id;
              loc = c.loc;
              block = c.block;
              bound = if r.forwards_keywords then merge own (keyword_args c fns) else own;
            }
            ∷ []
      ]
]

unfoldable pub at_call_sites : List Function → List String → Render → List Resolved
at_call_sites fns ids r = elim (func_by_id fns r.function_id) [
  | none ↦ []
  | some fn ↦ elim (index_of_param fn.params r.from_param) [
    | none ↦ []
    | some index ↦ gather (at_call_site fns ids r index) (call_sites_of fns r.function_id)
  ]
]

unfoldable pub resolve_render : List Function → List String → Render → List Resolved
resolve_render fns ids r =
    if not (same r.view "")
    then record {
      view = r.view;
      name = r.name;
      function = r.function_id;
      loc = r.loc;
      block = r.block;
      bound = bindings_of r.bindings (context fns r);
    }
      ∷ []
    else if not (same r.from_param "")
    then at_call_sites fns ids r
    else []

unfoldable pub resolve_renders : List Function → List String → List Render → List Resolved
resolve_renders fns ids renders = gather (resolve_render fns ids) renders
