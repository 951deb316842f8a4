-- ===== src/Taint/Path.antt =====
-- core/internal/taint/taint.go: the evidence for a value (tracePath, originOf, confidenceOf). `none` at
-- the end of a walk means that the fuel ran out.
use sast_engine.Prelude.{
  ℕ, zero, suc, ℤ, String, Bool, true, false, ◌||◌, Option, none, some, List, [], ◌∷◌, StrSet,
  insert, contains, same, if◌then◌else◌, length,
}
use sast_engine.Ir.{Loc}
use sast_engine.Taint.{Edge, State}

-- `Hop`, without the field `assumed`
pub record Hop : Type 0 where
  pub loc : Loc
  pub description : String
  pub symbol : String
  pub literals : List (ℤ × String)
  pub input_arg : ℤ
  pub has_input_arg : Bool
  pub kind : String
  pub resolution : String

unfoldable pub hop_of : Edge → Hop
hop_of ed = record {
  loc = ed.loc;
  description = ed.desc;
  symbol = ed.symbol;
  literals = ed.literals;
  input_arg = ed.input_arg;
  has_input_arg = ed.has_input_arg;
  kind = ed.kind;
  resolution = ed.resolution;
}

-- the loop of `tracePath`. The source appends the hops and then reverses them; here each is put in
-- front of those that come after it.
unfoldable pub trace_within :
    ℕ → State → StrSet → String → String → List Hop → Option (List Hop × String)
trace_within zero st seen cur origin path = none
trace_within (suc fuel) st seen cur origin path = elim (same cur "" || contains seen cur) [
  | true ↦ some (path, origin)
  | false ↦ elim (st.pred cur) [
    | none ↦ some (path, origin)
    | some ed ↦ trace_within fuel st (insert cur seen) ed.from cur (hop_of ed ∷ path)
  ]
]

unfoldable pub trace_path : State → String → Option (List Hop × String)
trace_path st value_id = trace_within (suc (length st.tainted)) st [] value_id value_id []

-- the loop of `originOf`, over the keys of `e.seeds`
unfoldable pub origin_within : ℕ → State → StrSet → StrSet → String → Option String
origin_within zero st seeds seen id = none
origin_within (suc fuel) st seeds seen id = elim (same id "" || contains seen id) [
  | true ↦ some ""
  | false ↦ elim (contains seeds id) [
    | true ↦ some id
    | false ↦ elim (st.pred id) [
      | none ↦ some ""
      | some ed ↦ origin_within fuel st seeds (insert id seen) ed.from
    ]
  ]
]

unfoldable pub origin_of : State → StrSet → String → Option String
origin_of st seeds id = origin_within (suc (length st.tainted)) st seeds [] id

pub data Confidence : Type 0 where
  high : Confidence
  medium : Confidence
  low : Confidence

-- the loop of `confidenceOf`, over the worst so far
unfoldable pub worst_of : Confidence → List Hop → Confidence
worst_of worst [] = worst
worst_of worst (h ∷ path) = elim (same h.resolution "dynamic-unresolved") [
  | true ↦ low
  | false ↦ worst_of (if same h.resolution "probable" then medium else worst) path
]

unfoldable pub confidence_of : List Hop → Confidence
confidence_of path = worst_of high path
