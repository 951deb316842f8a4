-- ===== src/Cfg/Paths.antt =====
-- Paths of the control-flow graph, with no algorithm in them.
use sast_engine.Prelude.{◌⊎◌, String, ◌≡◌, true, false, List, [], ◌∷◌, contains}
use sast_engine.Cfg.{Graph, successors, block_ids}

-- `k` is a block of the graph.
abbrev pub IsBlock : Graph → String → Type 0
IsBlock g k = contains (block_ids g.blocks) k ≡ true

-- Control can go from one block of the graph to another.
abbrev pub Edge : Graph → String → String → Type 0
Edge g k j = (contains (successors g.blocks k) j ≡ true) × IsBlock g j

-- Control leaves the function here: no successor is a block of the graph.
abbrev pub Leaves : Graph → String → Type 0
Leaves g k =
    (j : String)
    → contains (successors g.blocks k) j ≡ true
    → contains (block_ids g.blocks) j ≡ false

-- the paths from a block to the end of the function, as the lists of their blocks
pub data ExitPath (g : Graph) : String → List String → Type 0 where
  leave : (k : String) → Leaves g k → ExitPath g k (k ∷ [])
  step : (k j : String) (w : List String) → Edge g k j → ExitPath g j w → ExitPath g k (k ∷ w)

-- control can get from one block to another along one or more edges
pub data Leads (g : Graph) : String → String → Type 0 where
  one : (k j : String) → contains (successors g.blocks k) j ≡ true → Leads g k j
  more : (k j l : String) → Leads g k j → contains (successors g.blocks j) l ≡ true → Leads g k l

-- Every path from `k` to the end of the function goes through `a`.
abbrev pub Unavoidable : Graph → String → String → Type 0
Unavoidable g a k =
    IsBlock g k × IsBlock g a × ((w : List String) → ExitPath g k w → contains w a ≡ true)

-- Control can arrive at `k` from the entry.
abbrev pub FromEntry : Graph → String → Type 0
FromEntry g k = (k ≡ g.entry) ⊎ Leads g g.entry k

-- the paths from the entry to a block, as the lists of their blocks, the last block first
pub data EntryPath (g : Graph) : String → List String → Type 0 where
  enter : EntryPath g g.entry (g.entry ∷ [])
  along : (k j : String) (w : List String) → EntryPath g k w → Edge g k j → EntryPath g j (j ∷ w)

-- Control can arrive at `b`, and does so only through `a`.
abbrev pub Dominator : Graph → String → String → Type 0
Dominator g a b =
    IsBlock g b × FromEntry g b × ((w : List String) → EntryPath g b w → contains w a ≡ true)

-- a back edge: it goes to a block that dominates where it comes from
abbrev pub BackEdge : Graph → String → String → Type 0
BackEdge g header latch = Edge g latch header × Dominator g header latch

-- the natural loop of a header: the header, where its back edges come from, and what leads there
-- among the blocks that it dominates
pub data InLoop (g : Graph) (header : String) : String → Type 0 where
  head : (l : String) → BackEdge g header l → InLoop g header header
  latch : (l : String) → BackEdge g header l → InLoop g header l
  back : (j k : String) → InLoop g header j → Edge g k j → Dominator g header k → InLoop g header k
