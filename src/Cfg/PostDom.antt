-- ===== src/Cfg/PostDom.antt =====
-- PostDominates decides what it is named for.
use sast_engine.Prelude.{
  String, ◌≡◌, refl, sym, ◌∙◌, ap, subst, true, false, some, List, [], ◌∷◌, contains, length,
  is_some, arith, IsDistinct, nat_eq, Bool-cases, inl, inr, ◌↔◌,
}
use sast_engine.Ir.{Block}
use sast_engine.Fixpoint.{SetMap, get}
use sast_engine.Fixpoint.Walks.{Walk, stop_skip, stop_dead, onward}
use sast_engine.Fixpoint.Exact.{solution_iff}
use sast_engine.Cfg.{
  Graph, successors, block_ids, set_of, or_nothing, post_problem, compute_post_dominators,
}
use sast_engine.Cfg.Build.{IsGraph}
use sast_engine.Cfg.Initial.{contains-set_of}
use sast_engine.Cfg.Paths.{ExitPath, leave, step, Unavoidable}
use sast_engine.Cfg.Queries.{in_set, post_dominates}
use sast_engine.Cfg.PostStart.{p, live, skip_lem, listed_lem, stays, solved}

-- For every list of blocks, the loop of computePostDominators stops within n * n + 1 sweeps, where
-- n is the length of the order.
pub compute_post_dominators_total :
    (bs : List Block) (order : List String)
    → (d : SetMap) × (compute_post_dominators bs order ≡ some d)
compute_post_dominators_total bs order = let (d, e, _) = solved bs order in (d, e)

module _ (g : Graph) (ok : IsGraph g) where
  block_listed : (k : String) → contains (block_ids g.blocks) k ≡ contains g.order k
  block_listed k = sym (ok.listed k)

  no_successor :
      (k j : String)
      → nat_eq (length (successors g.blocks k)) 0 ≡ true
      → contains (successors g.blocks k) j ≡ false
  no_successor k j = none_in (successors g.blocks k)
    where
      none_in : (xs : List String) → nat_eq (length xs) 0 ≡ true → contains xs j ≡ false
      none_in [] h = unfold contains in refl
      none_in (x ∷ xs) h = absurd (ground arith)

  skip_block :
      (k : String) → (p g.blocks g.order).skip k ≡ nat_eq (length (successors g.blocks k)) 0
  skip_block = skip_lem g.blocks g.order

  walk→ExitPath :
      {k : String} {w : List String}
      → Walk (p g.blocks g.order) (live g.blocks g.order) k w
      → ExitPath g k w
  unfolding post_problem
  walk→ExitPath (stop_skip k s) =
      leave k λ j m. let n = no_successor k j (sym (skip_block k) ∙ s) in cc
  walk→ExitPath (stop_dead k n dead) = leave k λ j m. block_listed j ∙ dead j m
  walk→ExitPath (onward k j w n m l walk) = step k j w (m, block_listed j ∙ l) (walk→ExitPath walk)

  ExitPath→walk :
      {k : String} {w : List String}
      → ExitPath g k w
      → Walk (p g.blocks g.order) (live g.blocks g.order) k w
  unfolding post_problem
  ExitPath→walk (leave k out) = elim (Bool-cases ((p g.blocks g.order).skip k)) [
    | inl s ↦ stop_skip k s
    | inr n ↦ stop_dead k n λ j m. ok.listed j ∙ out j m
  ]
  ExitPath→walk (step k j w (m, b) rest) = elim (Bool-cases ((p g.blocks g.order).skip k)) [
    | inl s ↦ let n = no_successor k j (sym (skip_block k) ∙ s) in absurd (ground arith)
    | inr n ↦ onward k j w n m (ok.listed j ∙ b) (ExitPath→walk rest)
  ]

pub in_set-get : (d : SetMap) (k a : String) → in_set d k a ≡ contains (get d k) a
unfolding in_set get contains
in_set-get d k a = ground arith

is_some_of_get : (d : SetMap) (k a : String) → contains (get d k) a ≡ true → is_some (d k) ≡ true
unfolding get contains
is_some_of_get d k a h = ground arith

solution_path_iff :
    (g : Graph)
    → IsGraph g
    → (a from : String)
    → (contains (get (or_nothing (compute_post_dominators g.blocks g.order)) from) a ≡ true)
      ↔ Unavoidable g a from
unfolding or_nothing
solution_path_iff g ok a from =
    let (d, e, sol) = solved g.blocks g.order in
    let iff =
      solution_iff (p g.blocks g.order) (live g.blocks g.order) (set_of g.order)
        (stays g.blocks g.order) (λ k j m l. listed_lem g.blocks g.order j ∙ l) d sol from a in
    rw e (
      (λ h.
          let l : contains g.order from ≡ true =
            sym (sol.inv.admitted from) ∙ admit_lem d from a h in
          let (u, all_w) = (iff l (listed_lem g.blocks g.order from ∙ l)).0 h in
          (
            sym (ok.listed from) ∙ l,
            sym (ok.listed a) ∙ sym (contains-set_of g.order a) ∙ u,
            λ w path. all_w w (ExitPath→walk g ok path),
          )),
      λ (bf, ba, h).
          let l : contains g.order from ≡ true = ok.listed from ∙ bf in
          (iff l (listed_lem g.blocks g.order from ∙ l)).1
            (contains-set_of g.order a ∙ ok.listed a ∙ ba, λ w walk. h w (walk→ExitPath g ok walk)),
    )
  where
    admit_lem :
        (d : SetMap) (k a : String)
        → contains (get d k) a ≡ true
        → (p g.blocks g.order).admit d k ≡ true
    admit_lem d k a h = unfold post_problem in is_some_of_get d k a h

-- The set that is kept for a block holds what no way out avoids.
pub held_iff :
    (g : Graph)
    → IsGraph g
    → (a from : String) → (contains (get g.post_doms from) a ≡ true) ↔ Unavoidable g a from
held_iff g ok a from =
    let iff = solution_path_iff g ok a from in
    let e = ap (λ d. contains (get d from) a) ok.computed in
    (λ h. iff.0 (sym e ∙ h), λ h. e ∙ iff.1 h)

-- In a graph that is built, PostDominates(a, from) holds exactly if both are blocks of the graph
-- and every path from `from` to a place where control leaves the function goes through `a`.
pub post_dominates_iff :
    (g : Graph)
    → IsGraph g
    → (a from : String) → (post_dominates g a from ≡ true) ↔ Unavoidable g a from
unfolding post_dominates
post_dominates_iff g ok a from =
    let iff = held_iff g ok a from in
    let e = in_set-get g.post_doms from a in (λ h. iff.0 (sym e ∙ h), λ h. e ∙ iff.1 h)

pub post_doms-IsDistinct : (g : Graph) → IsGraph g → (k : String) → IsDistinct (get g.post_doms k)
unfolding or_nothing
post_doms-IsDistinct g ok k =
    let (d, e, sol) = solved g.blocks g.order in
    subst (λ d'. IsDistinct (get d' k)) (sym (ok.computed ∙ ap or_nothing e)) (sol.inv.distinct k)
