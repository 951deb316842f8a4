-- ===== src/Cfg/Dom.antt =====
-- Dominates decides what it is named for.
use sast_engine.Prelude.{
  String, ◌≡◌, refl, sym, ◌∙◌, subst, true, some, List, [], ◌∷◌, contains, same_iff, same_self,
  arith, Bool-cases, same-cases, ◌⊎◌, inl, inr, ◌↔◌, Subset,
}
use sast_engine.Fixpoint.{SetMap}
use sast_engine.Fixpoint.Walks.{Walk, stop_skip, stop_dead, onward, Unavoidable}
use sast_engine.Fixpoint.Exact.{solution_iff}
use sast_engine.Cfg.{Graph, successors, or_nothing}
use sast_engine.Cfg.Build.{IsGraph, is_some-get_block}
use sast_engine.Cfg.Paths.{
  IsBlock, Edge, Dominator, Leads, one, more, FromEntry, EntryPath, enter, along,
}
use sast_engine.Cfg.Dominance.{dom_problem, compute_dominators, dominates, reachable}
use sast_engine.Cfg.Reach.{block_or_none, reachable_iff}
use sast_engine.Cfg.PostDom.{in_set-get}
use sast_engine.Cfg.DomStart.{p, live, universe, skip_lem, stays, contains-universe, solved}

-- The loop of computeDominators stops within n * n + 1 sweeps, where n is the number of blocks.
pub compute_dominators_total :
    (g : Graph) → IsGraph g → (d : SetMap) × (compute_dominators g ≡ some d)
compute_dominators_total g ok = let (d, e, _) = solved g ok in (d, e)

module _ (g : Graph) (ok : IsGraph g) where
  live_iff : (k : String) → (live g ok k ≡ true) ↔ FromEntry g k
  live_iff k = unfold reachable in reachable_iff g ok k

  -- What has a successor is a block.
  sender-IsBlock : (k j : String) → contains (successors g.blocks k) j ≡ true → IsBlock g k
  unfolding contains
  sender-IsBlock k j m = elim (block_or_none g.blocks k) [
    | inl b ↦ b
    | inr e ↦ let m' : contains [] j ≡ true = rw e at m in cc
  ]

  pred_iff : (k j : String) → IsBlock g k → (contains (g.preds k) j ≡ true) ↔ Edge g j k
  pred_iff k j b = (
    λ m. (ground (arith, ok.turned k j), b),
    λ (m, _). ground (arith, ok.turned k j, is_some-get_block g.blocks k),
  )

  pred-Edge : (k j : String) → contains (g.preds k) j ≡ true → Edge g j k
  pred-Edge k j m =
      ((ground (arith, ok.turned k j)), ground (arith, ok.turned k j, is_some-get_block g.blocks k))

  Edge-FromEntry : (k j : String) → FromEntry g k → Edge g k j → FromEntry g j
  Edge-FromEntry k j f (m, _) = elim f [
    | inl e ↦ inr (one g.entry j (subst (λ x. contains (successors g.blocks x) j ≡ true) e m))
    | inr l ↦ inr (more g.entry k j l m)
  ]

  EntryPath-FromEntry : {k : String} {w : List String} → EntryPath g k w → FromEntry g k
  EntryPath-FromEntry enter = inl refl
  EntryPath-FromEntry (along k j w path e) = Edge-FromEntry k j (EntryPath-FromEntry path) e

  -- A block that can be reached is the entry or has a predecessor that can.
  came_from :
      (k : String)
      → FromEntry g k
      → (k ≡ g.entry) ⊎ ((j : String) × (contains (successors g.blocks j) k ≡ true) × FromEntry g j)
  came_from k (inl e) = inl e
  came_from k (inr (one _ _ m)) = inr (g.entry, m, inl refl)
  came_from k (inr (more _ j _ l m)) = inr (j, m, inr l)

  skip-entry : (k : String) → live g ok k ≡ true → (p g ok).skip k ≡ true → k ≡ g.entry
  skip-entry k l s = (same_iff k g.entry).0 (ground (arith, skip_lem g ok k))

  walk→EntryPath :
      {k : String} {w : List String}
      → Walk (p g ok) (live g ok) k w
      → live g ok k ≡ true
      → IsBlock g k
      → EntryPath g k w
  unfolding dom_problem
  walk→EntryPath (stop_skip k s) l b =
      subst (λ x. EntryPath g x (x ∷ [])) (sym (skip-entry k l s)) enter
  walk→EntryPath (stop_dead k n dead) l b = elim (came_from k ((live_iff k).0 l)) [
    | inl e ↦ let e' = (same_iff k g.entry).1 e in absurd (ground (arith, skip_lem g ok k))
    | inr (j, m, f) ↦
        let dj = dead j ((pred_iff k j b).1 (m, b)) in
        let lj = (live_iff j).1 f in absurd (ground arith)
  ]
  walk→EntryPath (onward k j w n m lj walk) l b =
      let e = pred-Edge k j m in along j k w (walk→EntryPath walk lj (sender-IsBlock j k e.0)) e

  EntryPath→walk :
      {k : String} {w : List String}
      → EntryPath g k w
      → (w' : List String) × Walk (p g ok) (live g ok) k w' × Subset w' w
  unfolding dom_problem contains
  EntryPath→walk enter = (
    g.entry ∷ [],
    stop_skip g.entry (ground (arith, skip_lem g ok g.entry, same_self g.entry)),
    λ k m. m,
  )
  EntryPath→walk (along k j w path e) = elim (Bool-cases ((p g ok).skip j)) [
    | inl s ↦ (j ∷ [], stop_skip j s, λ i m. ground (arith, same_iff j i))
    | inr n ↦
        let (w', walk, sub) = EntryPath→walk path in
        let lk = (live_iff k).1 (EntryPath-FromEntry path) in
        (j ∷ w', onward j k w' n ((pred_iff j k e.1).1 e) lk walk, λ i m. ground (arith, sub i))
  ]

  Leads→EntryPath :
      {k j : String} → Leads g k j → k ≡ g.entry → IsBlock g j → (w : List String) × EntryPath g j w
  Leads→EntryPath (one k j m) e b =
      let m' = subst (λ x. contains (successors g.blocks x) j ≡ true) e m in
      (j ∷ g.entry ∷ [], along g.entry j (g.entry ∷ []) enter (m', b))
  Leads→EntryPath (more k i j r m) e b =
      let (w, path) = Leads→EntryPath r e (sender-IsBlock i j m) in (j ∷ w, along i j w path (m, b))

  -- A block that can be reached lies at the end of some path of blocks.
  FromEntry→EntryPath :
      (k : String) → IsBlock g k → FromEntry g k → (w : List String) × EntryPath g k w
  FromEntry→EntryPath k b (inl e) =
      (g.entry ∷ [], subst (λ x. EntryPath g x (g.entry ∷ [])) (sym e) enter)
  FromEntry→EntryPath k b (inr l) = Leads→EntryPath l refl b

  -- What lies on such a path is a block that can be reached.
  EntryPath-all :
      {k : String} {w : List String}
      → EntryPath g k w
      → IsBlock g k
      → (a : String) → contains w a ≡ true
      → IsBlock g a × FromEntry g a
  unfolding contains
  EntryPath-all enter b a m =
      let e = (same_iff g.entry a).0 (ground arith) in (subst (IsBlock g) e b, inl (sym e))
  EntryPath-all (along k j w path e) b a m = elim (same-cases j a) [
    | inl q ↦ (
      subst (IsBlock g) q b,
      subst (FromEntry g) q (Edge-FromEntry k j (EntryPath-FromEntry path) e),
    )
    | inr n ↦ EntryPath-all path (sender-IsBlock k j e.0) a (ground arith)
  ]

  abbrev Everywhere : String → String → Type 0
  Everywhere a b = (w : List String) → EntryPath g b w → contains w a ≡ true

  Everywhere-iff :
      (a b : String)
      → IsBlock g b
      → FromEntry g b
      → Unavoidable (p g ok) (live g ok) (universe g ok) b a ↔ Everywhere a b
  Everywhere-iff a b block f = (
    λ (u, h) w path. let (w', walk, sub) = EntryPath→walk path in sub a (h w' walk),
    λ h.
        let (w, path) = FromEntry→EntryPath b block f in
        let (ba, fa) = EntryPath-all path block a (h w path) in
        let la = (live_iff a).1 fa in
        (
          ground (arith, contains-universe g ok a, ok.listed a),
          λ w' walk. h w' (walk→EntryPath walk ((live_iff b).1 f) block),
        ),
  )

-- In a graph that is built, Dominates(a, b) holds exactly if `b` is a block that control can arrive
-- at, and every path from the entry to `b` goes through `a`.
pub dominates_iff :
    (g : Graph) → IsGraph g → (a b : String) → (dominates g a b ≡ true) ↔ Dominator g a b
unfolding dominates or_nothing dom_problem
dominates_iff g ok a b =
    let (d, e, sol) = solved g ok in
    let iff =
      solution_iff (p g ok) (live g ok) (universe g ok) (stays g ok)
        (λ k j m l. ok.listed j ∙ sender-IsBlock g ok j k (pred-Edge g ok k j m).0) d sol b a in
    rw (e, in_set-get)
      (
        (λ h.
            let owner = (sol.inv.within b a h).1 in
            let lb : live g ok b ≡ true = ground (arith, contains-universe g ok b) in
            let ob : contains g.order b ≡ true = ground (arith, contains-universe g ok b) in
            let block : IsBlock g b = sym (ok.listed b) ∙ ob in
            let f = (live_iff g ok b).0 lb in
            (block, f, (Everywhere-iff g ok a b block f).0 ((iff lb ob).0 h))),
        λ (block, f, h).
            (iff ((live_iff g ok b).1 f) (ok.listed b ∙ block)).1
              ((Everywhere-iff g ok a b block f).1 h),
      )
