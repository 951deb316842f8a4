-- ===== src/Cfg/Repeated.antt =====
-- naturalLoop and Repetitions find the loops of a block, and no others.
use sast_engine.Prelude.{
  ◌+◌, ◌≤◌, String, ◌≡◌, refl, sym, ◌∙◌, ◌⊎◌, inl, inr, ◌↔◌, true, false, ◌&&◌, List, [], ◌∷◌,
  contains, contains-keep, contains-head, subst, arith, Bool-cases, List-cases, same_iff, length,
}
use sast_engine.Worklist.{push_all, Reach, root, edge}
use sast_engine.Worklist.Ends.{unspent}
use sast_engine.Worklist.Search.{Inv, Inv-done}
use sast_engine.Worklist.Drain.{contains-push_all, length-push_all, drain_total, drain-Inv}
use sast_engine.Cfg.{Graph, block_ids}
use sast_engine.Cfg.Build.{IsGraph, is_some-get_block}
use sast_engine.Cfg.Paths.{Edge, Dominator, BackEdge, InLoop, head, latch, back}
use sast_engine.Cfg.Dominance.{dominates, reachable, or_nobody}
use sast_engine.Cfg.Reach.{reachable_iff}
use sast_engine.Cfg.Dom.{dominates_iff}
use sast_engine.Cfg.Loops.{latches, dominated_preds, all_dominated, natural_loop}

contains-nil : (xs : List String) → ((k : String) → contains xs k ≡ false) → xs ≡ []
unfolding contains
contains-nil [] h = refl
contains-nil (x ∷ xs) h = absurd (ground (arith, h x, contains-head x xs))

unspent_dominated :
    (g : Graph) (h : String) (ks : List String)
    → unspent (dominated_preds g h) (h ∷ []) ks ≤ all_dominated g h ks
unfolding unspent all_dominated
unspent_dominated g h [] = omega arith
unspent_dominated g h (k ∷ ks) = ground (arith, unspent_dominated g h ks)

module _ (g : Graph) (ok : IsGraph g) (h : String) where
  next : String → List String
  next = dominated_preds g h

  -- a dominated predecessor is an edge from a block that the header dominates
  contains-next : (j k : String) → (contains (next j) k ≡ true) ↔ (Edge g k j × Dominator g h k)
  unfolding next dominated_preds
  contains-next j k = (
    λ m. (
      (
        ground (arith, contains-keep (dominates g h) (g.preds j) k, ok.turned j k),
        ground (
          arith,
          contains-keep (dominates g h) (g.preds j) k,
          ok.turned j k,
          is_some-get_block g.blocks j,
        ),
      ),
      (dominates_iff g ok h k).0 (ground (arith, contains-keep (dominates g h) (g.preds j) k)),
    ),
    λ ((e, b), d).
        let d' : dominates g h k ≡ true = (dominates_iff g ok h k).1 d in
        ground (
          arith,
          contains-keep (dominates g h) (g.preds j) k,
          ok.turned j k,
          is_some-get_block g.blocks j,
        ),
  )

  -- What the header dominates can be reached, so the second test of naturalLoop decides.
  contains-latches : (k : String) → contains (latches g h) k ≡ contains (next h) k
  unfolding latches next dominated_preds
  contains-latches k = elim (Bool-cases (dominates g h k)) [
    | inl d ↦
        let f : reachable g k ≡ true = (reachable_iff g ok k).1 ((dominates_iff g ok h k).0 d).1 in
        ground (
          arith,
          contains-keep (λ p. reachable g p && dominates g h p) (g.preds h) k,
          contains-keep (dominates g h) (g.preds h) k,
        )
    | inr n ↦ ground (
      arith,
      contains-keep (λ p. reachable g p && dominates g h p) (g.preds h) k,
      contains-keep (dominates g h) (g.preds h) k,
    )
  ]

  next-known : (j : String) → (contains (block_ids g.blocks) j ≡ true) ⊎ (next j ≡ [])
  next-known j = elim (Bool-cases (contains (block_ids g.blocks) j)) [
    | inl b ↦ inl b
    | inr n ↦ inr (
        contains-nil (next j) (λ k. elim (Bool-cases (contains (next j) k)) [
          | inr f ↦ f
          | inl m ↦ let ((_, b), _) = (contains-next j k).0 m in absurd (ground arith)
        ]))
  ]

  Inv-loop : Inv next (h ∷ []) (h ∷ []) (push_all (latches g h) [])
  unfolding contains
  Inv-loop = record {
    from_roots = λ k m. ground arith;
    from_seen = λ j k m e.
        let e' : contains (next h) k ≡ true =
          subst (λ x. contains (next x) k ≡ true) (sym ((same_iff h j).0 (ground arith))) e in
        ground (arith, contains-push_all (latches g h) [] k, contains-latches k);
    seen_sound = λ k m. root k m;
    queue_sound = λ k m.
        edge h k (root h (contains-head h []))
          (ground (arith, contains-push_all (latches g h) [] k, contains-latches k));
  }

  Reach→InLoop : (l : String) → BackEdge g h l → {k : String} → Reach next (h ∷ []) k → InLoop g h k
  unfolding contains
  Reach→InLoop l e (root k m) = subst (InLoop g h) ((same_iff h k).0 (ground arith)) (head l e)
  Reach→InLoop l e (edge j k r m) =
      let (e', d) = (contains-next j k).0 m in back j k (Reach→InLoop l e r) e' d

  InLoop→Reach : {k : String} → InLoop g h k → Reach next (h ∷ []) k
  InLoop→Reach (head l e) = root h (contains-head h [])
  InLoop→Reach (latch l (e, d)) =
      edge h l (root h (contains-head h [])) ((contains-next h l).1 (e, d))
  InLoop→Reach (back j k i e d) = edge j k (InLoop→Reach i) ((contains-next j k).1 (e, d))

  InLoop-BackEdge : {k : String} → InLoop g h k → (l : String) × BackEdge g h l
  InLoop-BackEdge (head l e) = (l, e)
  InLoop-BackEdge (latch l e) = (l, e)
  InLoop-BackEdge (back j k i e d) = InLoop-BackEdge i

  no_latch : latches g h ≡ [] → {k : String} → ¬ InLoop g h k
  unfolding contains
  no_latch e i =
      let (l, (e', d)) = InLoop-BackEdge i in
      let m : contains (latches g h) l ≡ true =
        contains-latches l ∙ (contains-next h l).1 (e', d) in
      let n : contains [] l ≡ true = rw e at m in cc

  some_latch : (l : String) (ls : List String) → latches g h ≡ l ∷ ls → BackEdge g h l
  some_latch l ls e =
      let m : contains (latches g h) l ≡ true = rw e (contains-head l ls) in
      (contains-next h l).0 (sym (contains-latches l) ∙ m)

-- In a graph that is built, naturalLoop(header) is the natural loop of the header.
pub natural_loop_iff :
    (g : Graph)
    → IsGraph g
    → (header b : String) → (contains (natural_loop g header) b ≡ true) ↔ InLoop g header b
unfolding natural_loop or_nobody contains next
natural_loop_iff g ok h b = elim (List-cases (latches g h)) [
  | inl e ↦ (
    λ m. let n : contains [] b ≡ true = rw (e, natural_loop) at m in cc,
    λ i. absurd (no_latch g ok h e i),
  )
  | inr (l, ls, e) ↦
      let (r, f) =
        drain_total (next g ok h) (block_ids g.blocks) (next-known g ok h)
          (length (l ∷ ls) + all_dominated g h (block_ids g.blocks)) (h ∷ []) (push_all (l ∷ ls) [])
          (omega
            (arith, length-push_all (l ∷ ls) [], unspent_dominated g h (block_ids g.blocks))) in
      let i : Inv (next g ok h) (h ∷ []) r [] =
        drain-Inv (next g ok h) (h ∷ []) _ (h ∷ []) (push_all (l ∷ ls) []) r
          (subst (λ x. Inv (next g ok h) (h ∷ []) (h ∷ []) (push_all x [])) e (Inv-loop g ok h))
          f in
      rw (e, natural_loop)
        (rw f (
          λ m. Reach→InLoop g ok h l (some_latch g ok h l ls e) (i.seen_sound b m),
          λ n. Inv-done (next g ok h) (h ∷ []) r i b (InLoop→Reach g ok h n),
        ))
]
