-- ===== src/Cfg/Control.antt =====
-- The questions about branches: control dependence, guards, and which arm decides.
use sast_engine.Prelude.{
  ◌≤◌, String, ◌≡◌, refl, sym, ◌∙◌, ap, Bool, true, false, not, ◌&&◌, ◌||◌, some, List, [], ◌∷◌,
  StrSet, contains, contains-head, contains-tail, same_iff, if◌then◌else◌, length, is_some, arith,
  IsDistinct, nat_eq, ltb, same-cases, inl, inr, ◌↔◌, ◌≢◌, Option-cases, any, any_iff,
}
use sast_engine.Ir.{Block}
use sast_engine.Fixpoint.{get}
use sast_engine.Cfg.{Graph, get_block, successors}
use sast_engine.Cfg.Build.{IsGraph, is_some-get_block, successors-none, successors-some}
use sast_engine.Cfg.Paths.{IsBlock, ExitPath, leave, step, Unavoidable}
use sast_engine.Cfg.Queries.{post_dominates, arms, control_depends_on, is_guard}
use sast_engine.Cfg.PostDom.{post_dominates_iff, post_doms-IsDistinct, held_iff}

-- an arm of a branch with a property
abbrev pub SomeArm : Graph → (String → Type 0) → String → Type 0
SomeArm g P branch = (s : String) × (contains (successors g.blocks branch) s ≡ true) × P s

arms-eq :
    (g : Graph) (block : String) (ss : List String) (r v : Bool)
    → arms g block ss r v ≡ (
        (r || any (post_dominates g block) ss)
        && (v || any (λ s. not (post_dominates g block s)) ss))
unfolding arms any
arms-eq g block [] r v = ground arith
arms-eq g block (x ∷ ss) r v =
    arms-eq g block ss (r || post_dominates g block x) (v || not (post_dominates g block x))
    ∙ ground arith

control_depends_on-eq :
    (g : Graph) (block branch : String) (b : Block)
    → get_block g.blocks branch ≡ some b
    → control_depends_on g block branch ≡ (
        if ltb (length b.successors) 2
        then false
        else any (post_dominates g block) b.successors
          && any (λ s. not (post_dominates g block s)) b.successors)
unfolding control_depends_on
control_depends_on-eq g block branch b e = rw (e, control_depends_on, arms-eq) refl

not_in_nil : (s : String) → ¬ (contains [] s ≡ true)
unfolding contains
not_in_nil s h = cc

not_true : (b : Bool) → ¬ (b ≡ true) → b ≡ false
not_true true h = absurd (h refl)
not_true false h = refl

only_key :
    (xs : StrSet) (a b : String)
    → length xs ≡ 1
    → contains xs a ≡ true
    → contains xs b ≡ true
    → a ≡ b
unfolding contains
only_key [] a b h ma mb = cc
only_key (x ∷ []) a b h ma mb = ground (arith, same_iff x a, same_iff x b)
only_key (x ∷ y ∷ xs) a b h ma mb = absurd (omega arith)

length-one :
    (xs : StrSet) (b : String)
    → IsDistinct xs
    → contains xs b ≡ true
    → ((a : String) → contains xs a ≡ true → a ≡ b)
    → length xs ≡ 1
unfolding contains
length-one [] b d m only = cc
length-one (x ∷ []) b d m only = refl
length-one (x ∷ y ∷ xs) b d m only =
    let ex = only x (contains-head x (y ∷ xs)) in
    let ey = only y (contains-tail x (y ∷ xs) y (contains-head y xs)) in
    absurd (ground (arith, d.0, same_iff y x))

two_arms :
    (p : String → Bool) (ss : List String) (s t : String)
    → contains ss s ≡ true
    → contains ss t ≡ true
    → p s ≡ true
    → p t ≡ false
    → ltb (length ss) 2 ≡ false
unfolding contains
two_arms p [] s t ms mt ps pt = cc
two_arms p (x ∷ []) s t ms mt ps pt = absurd (ground (arith, same_iff x s, same_iff x t))
two_arms p (x ∷ y ∷ ss) s t ms mt ps pt = ground arith

-- In a graph that is built, ControlDependsOn(block, branch) holds exactly if `branch` has an arm
-- from which every path to the end of the function goes through `block`, and an arm for which that
-- is not so. (The test for two successors never decides.)
pub control_depends_on_iff :
    (g : Graph)
    → IsGraph g
    → (block branch : String)
    → (control_depends_on g block branch ≡ true)
      ↔ (SomeArm g (Unavoidable g block) branch × SomeArm g (λ s. ¬ Unavoidable g block s) branch)
unfolding control_depends_on
control_depends_on_iff g ok block branch = elim (Option-cases (get_block g.blocks branch)) [
  | inl n ↦ (
    λ h. let h' : false ≡ true = rw (n, control_depends_on) at h in cc,
    λ ((s, m, _), _).
        let m' : contains [] s ≡ true = rw (successors-none g.blocks branch n) at m in
        absurd (not_in_nil s m'),
  )
  | inr (b, e) ↦
      let eq = control_depends_on-eq g block branch b e in
      let own = successors-some g.blocks branch b e in
      let hit = any_iff (post_dominates g block) b.successors in
      let miss = any_iff (λ s. not (post_dominates g block s)) b.successors in
      (
        λ h.
            let (s, ms, ps) = hit.0 (ground (arith, eq)) in
            let (t, mt, pt) = miss.0 (ground (arith, eq)) in
            (
              (s, rw own ms, (post_dominates_iff g ok block s).0 ps),
              (
                t,
                rw own mt,
                λ u. let pt' = (post_dominates_iff g ok block t).1 u in absurd (ground arith),
              ),
            ),
        λ ((s, ms, us), (t, mt, ut)).
            let ps = (post_dominates_iff g ok block s).1 us in
            let pt =
              not_true (post_dominates g block t)
                (λ h. ut ((post_dominates_iff g ok block t).0 h)) in
            let ms' : contains b.successors s ≡ true = rw own at ms in
            let mt' : contains b.successors t ≡ true = rw own at mt in
            ground (
              arith,
              eq,
              two_arms (post_dominates g block) b.successors s t ms' mt' ps pt,
              hit.1 (s, ms', ps),
              miss.1 (t, mt', ground arith),
            ),
      )
]

-- Every block is on every path that starts at it.
ExitPath-head : {g : Graph} {k : String} {w : List String} → ExitPath g k w → contains w k ≡ true
ExitPath-head (leave k _) = contains-head k []
ExitPath-head (step k _ w _ _) = contains-head k w

-- In a graph that is built, IsGuard(block) holds exactly if `block` is a block with two successors or
-- more, and every other block is avoided by some way out: not every path from `block` to the end of
-- the function goes through it.
pub is_guard_iff :
    (g : Graph)
    → IsGraph g
    → (block : String)
    → (is_guard g block ≡ true) ↔ (
        (2 ≤ length (successors g.blocks block))
        × ((a : String) → a ≢ block → ¬ Unavoidable g a block))
unfolding is_guard
is_guard_iff g ok block = elim (Option-cases (get_block g.blocks block)) [
  | inl n ↦ (
    λ h. let h' : false ≡ true = rw (n, is_guard) at h in cc,
    λ (two, _). absurd (omega (arith, ap length (successors-none g.blocks block n))),
  )
  | inr (b, e) ↦
      let eq : is_guard g block ≡ (
          if ltb (length b.successors) 2
          then false
          else nat_eq (length (get g.post_doms block)) 1) =
        rw (e, is_guard) refl in
      let own = ap length (successors-some g.blocks block b e) in
      let is_block : IsBlock g block = sym (is_some-get_block g.blocks block) ∙ ap is_some e in
      let itself : contains (get g.post_doms block) block ≡ true =
        (held_iff g ok block block).1 (is_block, is_block, λ w path. ExitPath-head path) in
      (
        λ h. (
          ground (arith, eq, own),
          λ a ne u. ne (
              only_key (get g.post_doms block) a block (ground (arith, eq))
                ((held_iff g ok a block).1 u) itself),
        ),
        λ (two, alone).
            let one_key : length (get g.post_doms block) ≡ 1 =
              length-one (get g.post_doms block) block (post_doms-IsDistinct g ok block) itself
                λ a m. elim (same-cases a block) [
                  | inl eq' ↦ eq'
                  | inr ne ↦ absurd (
                      alone a (λ e'. let e'' = (same_iff a block).1 e' in absurd (ground arith))
                        ((held_iff g ok a block).0 m))
                ] in
            ground (arith, eq, own),
      )
]
