-- ===== src/Taint.antt =====
-- core/internal/taint/taint.go: the propagation of one classification, its state and the change of
-- it (edge, engine, chainScore, markTainted, carriesRecord). Go's maps are functions that answer the
-- zero value for an absent key, and `none` where the code asks whether the key is there.
pub mod Rules
pub mod Index
pub mod Entered
pub mod Describe
pub mod Propagate
pub mod Leads
pub mod Moves
pub mod Inward
pub mod Hops
pub mod Visit
pub mod Round
pub mod Targets
pub mod Fuel
pub mod Seeded
pub mod Total
pub mod Chain
pub mod Traced
pub mod Path
pub mod Evidence
pub mod Origin
pub mod Closed
pub mod Complete
pub mod Fixed
pub mod Confident
pub mod Resolve
pub mod Resolved
pub mod Promises
pub mod Completing
pub mod Recalled
use sast_engine.Prelude.{
  ℕ, ◌+◌, ℤ, String, Bool, true, false, not, ◌||◌, ◌&&◌, Option, none, some, List, [], ◌∷◌, ◌++◌,
  StrSet, insert, contains, same, leb, is_some, if◌then◌else◌,
}
use sast_engine.Ir.{Loc, Function}
use sast_engine.Taint.Rules.{Model, sanitizer_for}

-- How a value became tainted. A seed comes from the empty text. The field `assumed`, which asks all the
-- tables of the model, is left out.
pub record Edge : Type 0 where
  pub from : String
  pub kind : String
  pub desc : String
  pub loc : Loc
  pub symbol : String
  pub resolution : String
  pub literals : List (ℤ × String)
  pub input_arg : ℤ
  pub has_input_arg : Bool
  pub site : String
  pub converter : String

pub record ResolveTarget : Type 0 where
  pub result_id : String
  pub arg_index : ℕ
  pub note : String
  pub resolution : String

-- what an engine reads and does not change: the program, the model, and the promises that
-- continuation calls complete, which resolveTargets finds once for the program
pub record Engine : Type 0 where
  pub functions : List Function
  pub model : Model
  pub resolves : String → List ResolveTarget

-- what an engine changes
pub record State : Type 0 where
  pub tainted : StrSet
  pub pred : String → Option Edge
  pub via_transform : String → Bool
  pub via_converter : String → String
  pub chain : String → ℕ
  pub record_fields : String → List String
  pub queue : List String

-- `m[id] = v`
unfoldable pub put {ℓ} : {A : Type ℓ} → String → A → (String → A) → String → A
put id v f k = if same id k then v else f k

unfoldable pub chain_score : String → Bool → ℕ
chain_score converter via_transform =
    (if same converter "" then 0 else 2) + (if via_transform then 1 else 0)

unfoldable pub is_transform : Model → String → Bool
is_transform m symbol = not (same symbol "") && is_some (sanitizer_for m.sanitizers symbol)

-- the two flags of the path that an edge would make, and its score
unfoldable pub edge_via : Model → Edge → State → Bool
edge_via m ed st = st.via_transform ed.from || is_transform m ed.symbol

unfoldable pub edge_converter : Edge → State → String
edge_converter ed st = if same ed.converter "" then st.via_converter ed.from else ed.converter

unfoldable pub edge_score : Model → Edge → State → ℕ
edge_score m ed st = chain_score (edge_converter ed st) (edge_via m ed st)

-- the test that returns early: there is no such value, or the path that is kept says as little
unfoldable pub is_settled : Model → String → Edge → State → Bool
is_settled m id ed st =
    same id "" || contains st.tainted id && leb (st.chain id) (edge_score m ed st)

-- the assignments after it
unfoldable pub keep_path : Model → String → Edge → State → State
keep_path m id ed st = record {
  tainted = insert id st.tainted;
  pred = put id (some ed) st.pred;
  via_transform = put id (edge_via m ed st) st.via_transform;
  via_converter = put id (edge_converter ed st) st.via_converter;
  chain = put id (edge_score m ed st) st.chain;
  record_fields = st.record_fields;
  queue = st.queue ++ id ∷ [];
}

unfoldable pub mark_tainted : Model → String → Edge → State → State
mark_tainted m id ed st = if is_settled m id ed st then st else keep_path m id ed st

unfoldable pub has_record : String → State → Bool
has_record id st = elim (st.record_fields id) [ [] ↦ false | _ ∷ _ ↦ true ]

unfoldable pub carries_record : String → String → State → State
carries_record from to st =
    if has_record from st && not (has_record to st)
    then record st { record_fields = put to (st.record_fields from) st.record_fields }
    else st
