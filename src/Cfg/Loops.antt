-- ===== src/Cfg/Loops.antt =====
-- core/internal/cfg/cfg.go: the loops that a block repeats in (Repetitions, naturalLoop, Repeats).
use sast_engine.Prelude.{
  ℕ, ◌+◌, String, Bool, not, ◌&&◌, ◌||◌, none, some, List, [], ◌∷◌, StrSet, contains, keep,
  if◌then◌else◌, length, nat_eq,
}
use sast_engine.Worklist.{drain, push_all}
use sast_engine.Cfg.{Graph, get_block, block_ids}
use sast_engine.Cfg.Dominance.{dominates, reachable, or_nobody}

pub record Repetition : Type 0 where
  pub header : String
  pub bound : String

-- the predecessors that a back edge comes from
unfoldable pub latches : Graph → String → List String
latches g header = keep (λ p. reachable g p && dominates g header p) (g.preds header)

-- what a member of the loop puts on the stack
unfoldable pub dominated_preds : Graph → String → String → List String
dominated_preds g header id = keep (dominates g header) (g.preds id)

-- Each member of the loop puts its predecessors on the stack once.
unfoldable pub all_dominated : Graph → String → List String → ℕ
all_dominated g header [] = 0
all_dominated g header (k ∷ ks) = length (dominated_preds g header k) + all_dominated g header ks

-- `naturalLoop`
unfoldable pub natural_loop : Graph → String → StrSet
natural_loop g header = elim (latches g header) [
  | [] ↦ []
  | p ∷ ps ↦ or_nobody (
      drain (dominated_preds g header)
        (length (p ∷ ps) + all_dominated g header (block_ids g.blocks)) (header ∷ [])
        (push_all (p ∷ ps) []))
]

-- the loop of Repetitions
unfoldable pub repetitions_in : Graph → String → List String → List Repetition
repetitions_in g block [] = []
repetitions_in g block (id ∷ ids) =
    let rest = repetitions_in g block ids in
    elim (get_block g.blocks id) [
      | none ↦ rest
      | some header ↦
          if not header.loop_header || not (reachable g id)
          then rest
          else if not (contains (natural_loop g id) block)
          then rest
          else record { header = id; bound = header.loop_bound } ∷ rest
    ]

-- `Repetitions`
unfoldable pub repetitions : Graph → String → List Repetition
repetitions g block = if not (reachable g block) then [] else repetitions_in g block g.order

-- `Repeats`
unfoldable pub repeats : Graph → String → Bool
repeats g block = not (nat_eq (length (repetitions g block)) 0)
