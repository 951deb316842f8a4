-- ===== src/Samples/Graphs.antt =====
-- The control-flow graph: tests, and the theorems on small functions.
use sast_engine.Prelude.{
  ℕ, ◌≤◌, ◌<◌, String, ◌≡◌, refl, ◌≢◌, ◌↔◌, true, false, some, List, length, contains, insert, keep,
  all_in, same_set, same, pos, negsuc,
}
use mathlib.Core.List.Perm
use sast_engine.Ir.{Block}
use sast_engine.Fixpoint.{
  SetMap, update, get, narrow, or_empty, meet, transfer, visit, sweep, solve,
}
use sast_engine.Worklist.{explore, find}
use sast_engine.Cfg.{
  Graph, graph_of, build, successors, compute_post_dominators, put_block, get_block, append_at,
  add_preds, all_preds, set_of, block_ids, exits, initial, or_nothing, post_problem, post_start,
}
use sast_engine.Cfg.Queries.{
  post_dominates, control_depends_on, reaches, selected_by_successor, is_guard,
  depends_on_successor, in_set, arms, all_successors, or_false, only_arm, no_other_arm,
}
use sast_engine.Cfg.Dominance.{
  dominates, reachable, compute_dominators, or_nobody, reached_from_entry, dom_problem,
  reached_order, dom_start,
}
use sast_engine.Cfg.Build.{IsGraph, IsVisit, build-IsGraph}
use sast_engine.Cfg.Paths.{IsBlock, Leads, FromEntry, EntryPath, Unavoidable}
use sast_engine.Cfg.PostDom.{post_dominates_iff, compute_post_dominators_total}
use sast_engine.Cfg.Reach.{reaches_iff, reachable_iff}
use sast_engine.Cfg.Control.{control_depends_on_iff, is_guard_iff, SomeArm}
use sast_engine.Cfg.ArmTests.{Arm}
use sast_engine.Cfg.Arms.{Gets, selected_by_successor_iff, depends_on_successor_iff}
use sast_engine.Cfg.Dom.{dominates_iff, compute_dominators_total}
use sast_engine.Samples.Programs.{enforced, decorated, looping}

abbrev pub in_order : List Block → List Block
in_order bs = bs

pub in_order-IsVisit : IsVisit in_order
in_order-IsVisit bs = Perm.refl bs

abbrev guarded : Graph
guarded = graph_of in_order enforced

abbrev logged : Graph
logged = graph_of in_order decorated

abbrev pub looped : Graph
looped = graph_of in_order looping

guarded-IsGraph : IsGraph guarded
unfolding build same
guarded-IsGraph = build-IsGraph in_order enforced guarded in_order-IsVisit refl

build-IsGraph_example : IsGraph guarded
unfolding build same
build-IsGraph_example = build-IsGraph in_order enforced guarded in_order-IsVisit refl

logged-IsGraph : IsGraph logged
unfolding build same
logged-IsGraph = build-IsGraph in_order decorated logged in_order-IsVisit refl

pub looped-IsGraph : IsGraph looped
unfolding build same
looped-IsGraph = build-IsGraph in_order looping looped in_order-IsVisit refl

-- all that the questions below compute with
unfoldable pub running : Unit {0}
unfolding contains insert keep all_in same_set same update get narrow or_empty meet transfer visit
    sweep solve explore find graph_of put_block get_block successors append_at add_preds all_preds
    set_of block_ids exits initial or_nothing post_problem post_start compute_post_dominators in_set
    post_dominates arms control_depends_on all_successors or_false reaches only_arm
    selected_by_successor is_guard no_other_arm depends_on_successor or_nobody reached_from_entry
    dom_problem reached_order dom_start compute_dominators dominates reachable
running = tt

-- A check that returns decides the operation after it; one that logs does not.
guard_runs : (is_guard guarded "test" ≡ true) × (is_guard logged "test" ≡ false)
unfolding running
guard_runs = (refl, refl)

control_runs :
    (control_depends_on guarded "use" "test" ≡ true)
    × (control_depends_on logged "use" "test" ≡ false)
unfolding running
control_runs = (refl, refl)

arms_run :
    (selected_by_successor guarded "use" "test" (pos 1) ≡ true)
    × (selected_by_successor logged "use" "test" (pos 1) ≡ false)
    × (depends_on_successor guarded "deny" "test" (pos 0) ≡ true)
    × (depends_on_successor guarded "deny" "test" (negsuc 0) ≡ false)
unfolding running
arms_run = (refl, refl, refl, refl)

dominance_runs :
    (dominates looped "head" "use" ≡ true)
    × (dominates looped "body" "use" ≡ false)
    × (reachable looped "dead" ≡ false)
    × (reaches looped "body" "body" ≡ true)
unfolding running
dominance_runs = (refl, refl, refl, refl)

compute_post_dominators_total_example :
    (d : SetMap) × (compute_post_dominators guarded.blocks guarded.order ≡ some d)
compute_post_dominators_total_example = compute_post_dominators_total guarded.blocks guarded.order

compute_dominators_total_example : (d : SetMap) × (compute_dominators looped ≡ some d)
compute_dominators_total_example = compute_dominators_total looped looped-IsGraph

post_dominates_iff_example :
    (post_dominates guarded "use" "test" ≡ true) ↔ Unavoidable guarded "use" "test"
post_dominates_iff_example = post_dominates_iff guarded guarded-IsGraph "use" "test"

control_depends_on_iff_example : (control_depends_on guarded "use" "test" ≡ true) ↔ (
    SomeArm guarded (Unavoidable guarded "use") "test"
    × SomeArm guarded (λ s. ¬ Unavoidable guarded "use" s) "test")
control_depends_on_iff_example = control_depends_on_iff guarded guarded-IsGraph "use" "test"

is_guard_iff_example : (is_guard logged "test" ≡ true) ↔ (
    (2 ≤ length (successors logged.blocks "test"))
    × ((a : String) → a ≢ "test" → ¬ Unavoidable logged a "test"))
is_guard_iff_example = is_guard_iff logged logged-IsGraph "test"

reaches_iff_example : (reaches looped "body" "body" ≡ true) ↔ Leads looped "body" "body"
reaches_iff_example = reaches_iff looped looped-IsGraph "body" "body"

reachable_iff_example : (reachable looped "dead" ≡ true) ↔ FromEntry looped "dead"
reachable_iff_example = reachable_iff looped looped-IsGraph "dead"

dominates_iff_example : (dominates looped "head" "use" ≡ true) ↔ (
    IsBlock looped "use"
    × FromEntry looped "use"
    × ((w : List String) → EntryPath looped "use" w → contains w "head" ≡ true))
dominates_iff_example = dominates_iff looped looped-IsGraph "head" "use"

selected_by_successor_iff_example : (selected_by_successor guarded "use" "test" (pos 1) ≡ true) ↔ (
    (n : ℕ) × (pos 1 ≡ pos n)
    × (n < length (successors guarded.blocks "test"))
    × (2 ≤ length (successors guarded.blocks "test"))
    × ((i : ℕ) (s : String) → Arm guarded "test" i s → Gets guarded s "use" ↔ (i ≡ n)))
selected_by_successor_iff_example =
    selected_by_successor_iff guarded guarded-IsGraph "use" "test" (pos 1)

depends_on_successor_iff_example : (depends_on_successor guarded "deny" "test" (pos 0) ≡ true) ↔ (
    (n : ℕ) × (pos 0 ≡ pos n)
    × (n < length (successors guarded.blocks "test"))
    × ((i : ℕ) (s : String) → Arm guarded "test" i s → Unavoidable guarded "deny" s ↔ (i ≡ n)))
depends_on_successor_iff_example =
    depends_on_successor_iff guarded guarded-IsGraph "deny" "test" (pos 0)
