-- ===== src/Fixpoint/Exact.antt =====
-- A solution for the walk specification holds exactly the keys that no walk avoids.
use sast_engine.Prelude.{
  String, ◌≡◌, sym, ◌∙◌, ◌↔◌, inl, inr, Bool, true, false, List, StrSet, contains, arith, Subset,
  same_set→Subset,
}
use sast_engine.Fixpoint.{SetMap, update, get, Problem, transfer}
use sast_engine.Fixpoint.Transfer.{transfer-IsDistinct}
use sast_engine.Fixpoint.Invariant.{transfer_iff}
use sast_engine.Fixpoint.Solve.{Solution}
use sast_engine.Fixpoint.Walks.{Walk, stop_skip, stop_dead, onward, Unavoidable, walk_spec}

module _ (p : Problem) (live : String → Bool) (universe : StrSet)
    (stays : (d : SetMap) (k : String) (v : StrSet)
      → contains p.order k ≡ true
      → p.skip k ≡ false
      → ((j : String) → p.admit d j ≡ live j)
      → (j : String) → p.admit (update d k v) j ≡ live j)
    (listed : (k j : String)
      → contains (p.inputs k) j ≡ true
      → live j ≡ true
      → contains p.order j ≡ true)
    (d : SetMap) (sol : Solution p (walk_spec p live universe stays) d) where
  -- What a solution holds at a block was transferred to it.
  get-transfer :
      (k : String)
      → contains p.order k ≡ true
      → p.skip k ≡ false
      → Subset (get d k) (transfer p d k)
  get-transfer k m n =
      (same_set→Subset (transfer p d k) (get d k) (transfer-IsDistinct p d k sol.inv.distinct)
        (sol.settled k m n)).1

  sound :
      (k a : String) (w : List String)
      → Walk p live k w
      → live k ≡ true
      → contains p.order k ≡ true
      → contains (get d k) a ≡ true
      → contains w a ≡ true
  unfolding contains
  sound k a w (stop_skip _ s) l m h = ground (arith, sol.inv.fixed k a m l s)
  sound k a w (stop_dead _ n dead) l m h =
      elim ((transfer_iff p d k a).0 (get-transfer k m n a h)) [
        | inl e ↦ ground arith
        | inr ((j, mj, aj), _) ↦
            let lj : live j ≡ true = sym (sol.inv.admitted j) ∙ aj in let dj = dead j mj in cc
      ]
  sound k a w (onward _ j v n mj lj walk) l m h =
      elim ((transfer_iff p d k a).0 (get-transfer k m n a h)) [
        | inl e ↦ ground arith
        | inr (_, all_j) ↦
            let held : contains (get d j) a ≡ true = all_j j mj (sol.inv.admitted j ∙ lj) in
            let found = sound j a v walk lj (listed k j mj lj) held in ground arith
      ]

  pub solution_iff :
      (k a : String)
      → live k ≡ true
      → contains p.order k ≡ true
      → (contains (get d k) a ≡ true) ↔ Unavoidable p live universe k a
  solution_iff k a l m =
      (λ h. ((sol.inv.within k a h).0, λ w walk. sound k a w walk l m h), λ u. sol.inv.full k a l u)
