-- ===== src/Cfg.antt =====
-- core/internal/cfg/cfg.go: the control-flow graph of a function. The two dataflow loops are
-- instances of `Fixpoint`, the searches of `Worklist`. A map whose key is a block's own name is a
-- list of blocks; a map that is only looked up is a function.
pub mod Queries
pub mod Dominance
pub mod Build
pub mod Initial
pub mod Paths
pub mod PostDom
pub mod PostStart
pub mod Reach
pub mod Control
pub mod Arms
pub mod ArmTests
pub mod DomStart
pub mod Dom
pub mod Loops
pub mod Repeated
pub mod Listed
use sast_engine.Prelude.{
  ℕ, zero, suc, ◌+◌, ◌*◌, String, Bool, true, false, not, ◌&&◌, ◌||◌, Option, none, some, List, [],
  ◌∷◌, ◌++◌, StrSet, insert, contains, same, if◌then◌else◌, ltb, nat_eq, length, is_some, ℤ, pos,
  negsuc,
}
use mathlib.Core.List.{foldl, reverse}
use sast_engine.Ir.{Block, Function}
use sast_engine.Fixpoint.{SetMap, update, get, Problem, solve}
use sast_engine.Worklist.{explore, find}

-- `g.blocks[b.ID] = &b`
unfoldable pub put_block : List Block → Block → List Block
put_block [] b = b ∷ []
put_block (c ∷ bs) b = if same c.id b.id then b ∷ bs else c ∷ put_block bs b

-- `g.blocks[id]`
unfoldable pub get_block : List Block → String → Option Block
get_block [] id = none
get_block (b ∷ bs) id = if same b.id id then some b else get_block bs id

-- the successors of `g.blocks[id]`, none where there is no such block
unfoldable pub successors : List Block → String → List String
successors bs id = elim (get_block bs id) [ none ↦ [] | some b ↦ b.successors ]

-- `map[string][]string`
abbrev pub Lists : Type 0
Lists = String → List String

-- `m[k] = append(m[k], v)`
unfoldable pub append_at : Lists → String → String → Lists
append_at m k v j = if same k j then m j ++ v ∷ [] else m j

-- the loop over the successors of one block
unfoldable pub add_preds : List Block → String → Lists → List String → Lists
add_preds bs id m [] = m
add_preds bs id m (s ∷ ss) =
    add_preds bs id (if is_some (get_block bs s) then append_at m s id else m) ss

-- the loop over the blocks, in the order in which Go visits the map
unfoldable pub all_preds : List Block → Lists → List Block → Lists
all_preds bs m [] = m
all_preds bs m (b ∷ rest) = all_preds bs (add_preds bs b.id m b.successors) rest

-- the set of the names in a list
unfoldable pub set_of : List String → StrSet
set_of [] = []
set_of (id ∷ ids) = insert id (set_of ids)

pub record Graph : Type 0 where
  pub entry : String
  pub blocks : List Block
  pub order : List String
  pub preds : Lists
  pub post_doms : SetMap

unfoldable pub block_ids : List Block → List String
block_ids [] = []
block_ids (b ∷ bs) = b.id ∷ block_ids bs

-- the exits: the blocks of the order that have no successors
unfoldable pub exits : List Block → List String → List String
exits bs [] = []
exits bs (id ∷ ids) =
    let rest = exits bs ids in if nat_eq (length (successors bs id)) 0 then id ∷ rest else rest

-- the sets that a loop starts from: `own` blocks have themselves only, the others have all
unfoldable pub initial : (String → Bool) → StrSet → SetMap → List String → SetMap
initial own all d [] = d
initial own all d (id ∷ ids) = initial own all (update d id (if own id then id ∷ [] else all)) ids

unfoldable pub or_nothing : Option SetMap → SetMap
or_nothing none = λ k. none
or_nothing (some d) = d

-- Sets that only shrink change at most as often as they have keys.
abbrev pub rounds : List String → ℕ
rounds order = suc (length order * length order)

-- the loop of computePostDominators: a sweep goes through the order backwards
unfoldable pub post_problem : List Block → List String → Problem
post_problem bs order = record {
  order = reverse order;
  skip = λ id. contains (set_of (exits bs order)) id || nat_eq (length (successors bs id)) 0;
  inputs = successors bs;
  admit = λ d id. is_some (d id);
}

unfoldable pub post_start : List Block → List String → SetMap
post_start bs order = initial (contains (set_of (exits bs order))) (set_of order) (λ k. none) order

unfoldable pub compute_post_dominators : List Block → List String → Option SetMap
compute_post_dominators bs order =
    solve (post_problem bs order) (rounds order) (post_start bs order)

-- What `Build` makes of a function that has blocks. `visit` is the order in which Go ranges over
-- the map of blocks.
unfoldable pub graph_of : (List Block → List Block) → Function → Graph
graph_of visit fn =
    let blocks = foldl put_block [] fn.blocks in
    let order = block_ids fn.blocks in
    record {
      entry = fn.entry_block;
      blocks = blocks;
      order = order;
      preds = all_preds blocks (λ k. []) (visit blocks);
      post_doms = or_nothing (compute_post_dominators blocks order);
    }

-- `Build`; `none` is nil
unfoldable pub build : (List Block → List Block) → Function → Option Graph
build visit fn =
    if nat_eq (length fn.blocks) 0 || same fn.entry_block "" then none else some (graph_of visit fn)
