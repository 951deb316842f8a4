-- ===== src/Cfg/Queries.antt =====
-- core/internal/cfg/cfg.go: the questions that the graph answers from post-dominance.
use sast_engine.Prelude.{
  ℕ, ◌+◌, String, Bool, true, false, not, ◌&&◌, ◌||◌, Option, none, some, List, [], ◌∷◌, contains,
  same, if◌then◌else◌, ltb, leb, nat_eq, length, get_elem?, ℤ, pos, negsuc,
}
use sast_engine.Ir.{Block}
use sast_engine.Fixpoint.{SetMap, get}
use sast_engine.Worklist.{find}
use sast_engine.Cfg.{Graph, get_block, successors}

-- `set, ok := m[k]; ok && set[a]`
unfoldable pub in_set : SetMap → String → String → Bool
in_set d k a = elim (d k) [ none ↦ false | some set ↦ contains set a ]

unfoldable pub post_dominates : Graph → String → String → Bool
post_dominates g a from = in_set g.post_doms from a

-- the loop of ControlDependsOn, with the flags `reaches` and `avoids`
unfoldable pub arms : Graph → String → List String → Bool → Bool → Bool
arms g block [] reaches avoids = reaches && avoids
arms g block (s ∷ ss) reaches avoids =
    let hit = post_dominates g block s in arms g block ss (reaches || hit) (avoids || not hit)

unfoldable pub control_depends_on : Graph → String → String → Bool
control_depends_on g block branch = elim (get_block g.blocks branch) [
  | none ↦ false
  | some b ↦ if ltb (length b.successors) 2 then false else arms g block b.successors false false
]

-- Each block puts its successors on the queue once.
unfoldable pub all_successors : List Block → ℕ
all_successors [] = 0
all_successors (b ∷ bs) = length b.successors + all_successors bs

unfoldable pub or_false : Option Bool → Bool
or_false none = false
or_false (some b) = b

unfoldable pub reaches : Graph → String → String → Bool
reaches g from to = elim (get_block g.blocks from) [
  | none ↦ false
  | some start ↦ or_false (
      find (successors g.blocks) to (length start.successors + all_successors g.blocks) []
        start.successors)
]

-- the loop of SelectedBySuccessor, from the arm `i` on
unfoldable pub only_arm : Graph → String → ℕ → ℕ → List String → Bool
only_arm g target selected i [] = true
only_arm g target selected i (s ∷ ss) =
    let rest = only_arm g target selected (i + 1) ss in
    let there = same s target || reaches g s target in
    if nat_eq i selected then (if there then rest else false) else if there then false else rest

unfoldable pub selected_by_successor : Graph → String → String → ℤ → Bool
selected_by_successor g target branch (negsuc n) = false
selected_by_successor g target branch (pos selected) = elim (get_block g.blocks branch) [
  | none ↦ false
  | some b ↦
      if leb (length b.successors) selected || ltb (length b.successors) 2
      then false
      else only_arm g target selected 0 b.successors
]

unfoldable pub is_guard : Graph → String → Bool
is_guard g block = elim (get_block g.blocks block) [
  | none ↦ false
  | some b ↦
      if ltb (length b.successors) 2 then false else nat_eq (length (get g.post_doms block)) 1
]

unfoldable pub branches_two_ways : Graph → String → Bool
branches_two_ways g block = elim (get_block g.blocks block) [
  | none ↦ false
  | some b ↦ leb 2 (length b.successors)
]

unfoldable pub any_guard : Graph → List String → Bool
any_guard g [] = false
any_guard g (b ∷ bs) = if is_guard g b then true else any_guard g bs

-- the last loop of DependsOnSuccessor: no other arm is post-dominated
unfoldable pub no_other_arm : Graph → String → ℕ → ℕ → List String → Bool
no_other_arm g block successor i [] = true
no_other_arm g block successor i (other ∷ ss) =
    let rest = no_other_arm g block successor (i + 1) ss in
    if not (nat_eq i successor) && post_dominates g block other then false else rest

unfoldable pub depends_on_successor : Graph → String → String → ℤ → Bool
depends_on_successor g block branch (negsuc n) = false
depends_on_successor g block branch (pos successor) = elim (get_block g.blocks branch) [
  | none ↦ false
  | some b ↦
      if leb (length b.successors) successor
      then false
      else elim (get_elem? b.successors successor) [
        | none ↦ false
        | some s ↦
            if post_dominates g block s
            then no_other_arm g block successor 0 b.successors
            else false
      ]
]
