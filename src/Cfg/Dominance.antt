-- ===== src/Cfg/Dominance.antt =====
-- core/internal/cfg/cfg.go: dominators and reachability from the entry, computeDominators. The
-- source fills two fields of the graph on the first call and keeps them; here they are computed
-- from the graph at each call, to the same values.
use sast_engine.Prelude.{
  ◌+◌, String, Bool, not, ◌||◌, Option, none, some, List, [], ◌∷◌, StrSet, contains, keep, same,
}
use sast_engine.Fixpoint.{SetMap, Problem, solve}
use sast_engine.Worklist.{explore}
use sast_engine.Cfg.{Graph, successors, initial, or_nothing, rounds, set_of}
use sast_engine.Cfg.Queries.{in_set, all_successors}

unfoldable pub or_nobody : Option StrSet → StrSet
or_nobody none = []
or_nobody (some s) = s

-- `reachedFromEntry`
unfoldable pub reached_from_entry : Graph → StrSet
reached_from_entry g =
    or_nobody (explore (successors g.blocks) (1 + all_successors g.blocks) [] (g.entry ∷ []))

-- the loop of computeDominators: unreachable blocks and the entry are passed over
unfoldable pub dom_problem : Graph → StrSet → Problem
dom_problem g reached = record {
  order = g.order;
  skip = λ id. not (contains reached id) || same id g.entry;
  inputs = g.preds;
  admit = λ d id. contains reached id;
}

unfoldable pub reached_order : StrSet → List String → List String
reached_order reached order = keep (contains reached) order

unfoldable pub dom_start : Graph → StrSet → SetMap
dom_start g reached =
    initial (λ id. same id g.entry) (set_of (reached_order reached g.order)) (λ k. none)
      (reached_order reached g.order)

unfoldable pub compute_dominators : Graph → Option SetMap
compute_dominators g =
    let reached = reached_from_entry g in
    solve (dom_problem g reached) (rounds g.order) (dom_start g reached)

unfoldable pub dominates : Graph → String → String → Bool
dominates g a b = in_set (or_nothing (compute_dominators g)) b a

unfoldable pub reachable : Graph → String → Bool
reachable g b = contains (reached_from_entry g) b
