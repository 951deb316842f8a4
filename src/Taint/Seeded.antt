-- ===== src/Taint/Seeded.antt =====
-- core/internal/taint/taint.go: the engine when the propagation starts: empty maps, and then a mark for
-- each source that the rules find. The finding of the sources is not modelled; they are an argument.
use sast_engine.Prelude.{pos, String, false, Option, none, some, List, [], each, map}
use sast_engine.Ir.{Loc}
use sast_engine.Taint.{Edge, Engine, State, mark_tainted, put}
use sast_engine.Taint.Rules.{Model}

-- a source: the value, and what its edge says. A store read comes with the columns of its row.
pub record Seed : Type 0 where
  pub id : String
  pub desc : String
  pub loc : Loc
  pub resolution : String
  pub converter : String
  pub fields : Option (List String)

unfoldable pub seed_edge : Seed → Edge
seed_edge s = record {
  from = "";
  kind = "";
  desc = s.desc;
  loc = s.loc;
  symbol = "";
  resolution = s.resolution;
  literals = [];
  input_arg = pos 0;
  has_input_arg = false;
  site = "";
  converter = s.converter;
}

unfoldable pub with_fields : Seed → State → State
with_fields s st = elim s.fields [
  | none ↦ st
  | some fs ↦ record st { record_fields = put s.id fs st.record_fields }
]

unfoldable pub seed_value : Model → Seed → State → State
seed_value m s st = mark_tainted m s.id (seed_edge s) (with_fields s st)

unfoldable pub new_state : State
new_state = record {
  tainted = [];
  pred = λ k. none;
  via_transform = λ k. false;
  via_converter = λ k. "";
  chain = λ k. 0;
  record_fields = λ k. [];
  queue = [];
}

unfoldable pub seeded : Engine → List Seed → State
seeded e seeds = each (seed_value e.model) seeds new_state

-- the keys of `e.seeds`
abbrev pub seed_ids : List Seed → List String
seed_ids seeds = map (λ (s : Seed). s.id) seeds
