-- ===== src/Cfg/Arms.antt =====
-- The questions about one arm of a branch: SelectedBySuccessor and DependsOnSuccessor.
use sast_engine.Prelude.{
  ℕ, ◌≤◌, ◌<◌, String, ◌≡◌, refl, sym, ◌∙◌, ap, Bool, true, false, ◌||◌, some, List, [], same_iff,
  if◌then◌else◌, length, arith, nat_eq, ltb, leb, Bool-cases, same-cases, ◌⊎◌, inl, inr, ◌↔◌,
  Option-cases, ℤ, pos, negsuc, get_elem?, get_elem?-lt, get_elem?_of_lt,
}
use sast_engine.Cfg.{Graph, get_block, successors}
use sast_engine.Cfg.Build.{IsGraph, successors-none, successors-some}
use sast_engine.Cfg.Paths.{Leads, Unavoidable}
use sast_engine.Cfg.Queries.{
  post_dominates, only_arm, selected_by_successor, no_other_arm, depends_on_successor,
}
use sast_engine.Cfg.PostDom.{post_dominates_iff}
use sast_engine.Cfg.Reach.{reaches_iff}
use sast_engine.Cfg.ArmTests.{Arm, gets, only_arm_iff, no_other_arm_iff}

-- Control is at the block already, or edges lead to it.
abbrev pub Gets : Graph → String → String → Type 0
Gets g s target = (s ≡ target) ⊎ Leads g s target

gets_iff :
    (g : Graph) → IsGraph g → (target s : String) → (gets g target s ≡ true) ↔ Gets g s target
gets_iff g ok target s =
    let (to, from) = reaches_iff g ok s target in
    (
      λ h. elim (same-cases s target) [ inl e ↦ inl e | inr n ↦ inr (to (ground arith)) ],
      λ h. elim h [
        | inl e ↦ let e' = (same_iff s target).1 e in ground arith
        | inr l ↦ let r = from l in ground arith
      ],
    )

eq_true_iff : (b : Bool) (n m : ℕ) (P : Type 0) → (b ≡ true) ↔ P → (b ≡ nat_eq n m) ↔ (P ↔ (n ≡ m))
eq_true_iff b n m P (to, from) = (
  λ h. (λ x. let y = from x in ground arith, λ e. to (ground arith)),
  λ (f, g). elim (Bool-cases b) [
    | inl t ↦ let e = f (to t) in ground arith
    | inr u ↦ elim (Bool-cases (nat_eq n m)) [
      | inl e ↦ let t = from (g (ground arith)) in ground arith
      | inr ne ↦ ground arith
    ]
  ],
)

selected_eq :
    (g : Graph) (target branch : String) (n : ℕ)
    → selected_by_successor g target branch (pos n) ≡ (
        if leb (length (successors g.blocks branch)) n
          || ltb (length (successors g.blocks branch)) 2
        then false
        else only_arm g target n 0 (successors g.blocks branch))
unfolding selected_by_successor
selected_eq g target branch n = elim (Option-cases (get_block g.blocks branch)) [
  | inl e ↦ rw (e, selected_by_successor, successors-none g.blocks branch e) (ground arith)
  | inr (b, e) ↦ rw (e, selected_by_successor, successors-some g.blocks branch b e) refl
]

-- In a graph that is built, SelectedBySuccessor(target, branch, selected) holds exactly if
-- `selected` is the position of an arm of a branch with two arms or more, and an arm of it gets to
-- `target` exactly if it is the selected one.
pub selected_by_successor_iff :
    (g : Graph)
    → IsGraph g
    → (target branch : String) (selected : ℤ)
    → (selected_by_successor g target branch selected ≡ true) ↔ (
        (n : ℕ) × (selected ≡ pos n)
        × (n < length (successors g.blocks branch))
        × (2 ≤ length (successors g.blocks branch))
        × ((i : ℕ) (s : String) → Arm g branch i s → Gets g s target ↔ (i ≡ n)))
unfolding selected_by_successor
selected_by_successor_iff g ok target branch (negsuc k) = (λ h. cc, λ (n, e, _, _, _). cc)
selected_by_successor_iff g ok target branch (pos k) =
    let (to, from) = only_arm_iff g target k 0 (successors g.blocks branch) in
    let eq = selected_eq g target branch k in
    let arm = λ (i : ℕ) (s : String).
      eq_true_iff (gets g target s) i k (Gets g s target) (gets_iff g ok target s) in
    (
      λ h. (
        k,
        refl,
        ground arith,
        ground arith,
        λ i s a. (arm i s).0 (to (ground arith) i s a ∙ ground arith),
      ),
      λ (n, e, lt, two, all_arms).
          let e' : n ≡ k = ground arith in
          let only = from λ i s a. (arm i s).1 (rw e' at (all_arms i s a)) ∙ ground arith in
          ground arith,
    )

depends_eq :
    (g : Graph) (block branch : String) (n : ℕ) (s : String)
    → Arm g branch n s
    → depends_on_successor g block branch (pos n) ≡ (
        if post_dominates g block s
        then no_other_arm g block n 0 (successors g.blocks branch)
        else false)
unfolding depends_on_successor
depends_eq g block branch n s a = elim (Option-cases (get_block g.blocks branch)) [
  | inl e ↦
      let a' : get_elem? [] n ≡ some s = rw (successors-none g.blocks branch e) at a in
      absurd (ground arith)
  | inr (b, e) ↦
      let own = successors-some g.blocks branch b e in
      let a' : get_elem? b.successors n ≡ some s = rw own at a in
      let within : leb (length b.successors) n ≡ false =
        let lt = get_elem?-lt b.successors n s a' in ground arith in
      rw (e, depends_on_successor, within, a', own) refl
]

depends_out_of_range :
    (g : Graph) (block branch : String) (n : ℕ)
    → length (successors g.blocks branch) ≤ n
    → depends_on_successor g block branch (pos n) ≡ false
unfolding depends_on_successor
depends_out_of_range g block branch n h = elim (Option-cases (get_block g.blocks branch)) [
  | inl e ↦ rw (e, depends_on_successor) refl
  | inr (b, e) ↦
      let within : leb (length b.successors) n ≡ true =
        let own = ap length (successors-some g.blocks branch b e) in ground arith in
      rw (e, depends_on_successor, within) refl
]

-- In a graph that is built, DependsOnSuccessor(block, branch, successor) holds exactly if
-- `successor` is the position of an arm, and an arm has `block` on every path from it to the end of
-- the function exactly if it is that arm.
pub depends_on_successor_iff :
    (g : Graph)
    → IsGraph g
    → (block branch : String) (successor : ℤ)
    → (depends_on_successor g block branch successor ≡ true) ↔ (
        (n : ℕ) × (successor ≡ pos n)
        × (n < length (successors g.blocks branch))
        × ((i : ℕ) (s : String) → Arm g branch i s → Unavoidable g block s ↔ (i ≡ n)))
unfolding depends_on_successor
depends_on_successor_iff g ok block branch (negsuc k) = (λ h. cc, λ (n, e, _, _). cc)
depends_on_successor_iff g ok block branch (pos k) =
    let (to, from) = no_other_arm_iff g block k 0 (successors g.blocks branch) in
    elim (lt_or_le k (length (successors g.blocks branch))) [
      | inr out ↦ (
        λ h. let n = depends_out_of_range g block branch k out in cc,
        λ (n, e, lt, _). let e' : n ≡ k = ground arith in absurd (omega arith),
      )
      | inl lt ↦
          let (s, a) = get_elem?_of_lt (successors g.blocks branch) k lt in
          let eq = depends_eq g block branch k s a in
          let arm = λ (s : String). post_dominates_iff g ok block s in
          (
            λ h. (
              k,
              refl,
              lt,
              λ i t b. (
                λ u. let o = to (ground arith) i t b ((arm t).1 u) in omega arith,
                λ e. (arm t).0 (the_arm (successors g.blocks branch) i k t s e b a (ground arith)),
              ),
            ),
            λ (n, e, _, all_arms).
                let e' : n ≡ k = ground arith in
                let first = (arm s).1 ((all_arms k s a).1 (sym e')) in
                let rest = from λ i t b p. omega (arith, (all_arms i t b).0 ((arm t).0 p)) in
                ground arith,
          )
    ]
  where
    lt_or_le : (a b : ℕ) → (a < b) ⊎ (b ≤ a)
    lt_or_le a b = grind arith

    the_arm :
        (ss : List String) (i n : ℕ) (t s : String)
        → i ≡ n
        → get_elem? ss i ≡ some t
        → get_elem? ss n ≡ some s
        → post_dominates g block s ≡ true
        → post_dominates g block t ≡ true
    the_arm ss i n t s e b a h = ground arith
