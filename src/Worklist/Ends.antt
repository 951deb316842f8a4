-- ===== src/Worklist/Ends.antt =====
-- The searches end: each round takes one name off the queue, and only a name that is expanded for
-- the first time puts others on it.
use sast_engine.Prelude.{
  ℕ, zero, suc, ◌+◌, ◌≤◌, String, ◌≡◌, refl, ◌⊎◌, inl, inr, Bool, true, false, some, ap, List, [],
  ◌∷◌, ◌++◌, StrSet, insert, contains, same, same_iff, same_self, same_symm, arith, Bool-cases,
  length, length-append, contains-insert, if◌then◌else◌,
}
use sast_engine.Worklist.{explore, find}

module _ (next : String → List String) where
  -- what the names that are not yet expanded can still put on the queue
  unfoldable pub unspent : StrSet → List String → ℕ
  unspent seen [] = 0
  unspent seen (k ∷ ks) = (if contains seen k then 0 else length (next k)) + unspent seen ks

  unspent-insert-le :
      (seen : StrSet) (id : String) (ks : List String)
      → unspent (insert id seen) ks ≤ unspent seen ks
  unfolding unspent
  unspent-insert-le seen id [] = omega arith
  unspent-insert-le seen id (k ∷ ks) =
      ground (arith, contains-insert id seen k, unspent-insert-le seen id ks)

  unspent-insert :
      (seen : StrSet) (id : String) (ks : List String)
      → contains seen id ≡ false
      → contains ks id ≡ true
      → unspent (insert id seen) ks + length (next id) ≤ unspent seen ks
  unfolding unspent contains
  unspent-insert seen id [] n m = cc
  unspent-insert seen id (k ∷ ks) n m = elim (Bool-cases (same k id)) [
    | inl e ↦
        let e' : k ≡ id = (same_iff k id).0 e in
        rw (e', contains-insert, same_self id, n) (omega (arith, unspent-insert-le seen id ks))
    | inr ne ↦ ground (arith, contains-insert id seen k, same_symm k id, unspent-insert seen id ks)
  ]

  module _ (nodes : List String)
      (known : (k : String) → (contains nodes k ≡ true) ⊎ (next k ≡ [])) where
    pub spend :
        (seen : StrSet) (id : String)
        → contains seen id ≡ false
        → unspent (insert id seen) nodes + length (next id) ≤ unspent seen nodes
    spend seen id n = elim (known id) [
      | inl m ↦ unspent-insert seen id nodes n m
      | inr e ↦ omega (arith, ap length e, unspent-insert-le seen id nodes)
    ]

    pub explore_total :
        (fuel : ℕ) (seen : StrSet) (queue : List String)
        → length queue + unspent seen nodes ≤ fuel
        → (r : StrSet) × (explore next fuel seen queue ≡ some r)
    unfolding explore
    explore_total fuel seen [] h = (seen, refl)
    explore_total zero seen (id ∷ queue) h = absurd (omega arith)
    explore_total (suc fuel) seen (id ∷ queue) h = elim (Bool-cases (contains seen id)) [
      | inl old ↦
          let (r, e) = explore_total fuel seen queue (omega arith) in (r, rw (old, explore) e)
      | inr new ↦
          let (r, e) =
            explore_total fuel (insert id seen) (queue ++ next id)
              (omega (arith, spend seen id new, length-append queue (next id))) in
          (r, rw (new, explore) e)
    ]

    pub find_total :
        (to : String) (fuel : ℕ) (seen : StrSet) (queue : List String)
        → length queue + unspent seen nodes ≤ fuel
        → (r : Bool) × (find next to fuel seen queue ≡ some r)
    unfolding find
    find_total to fuel seen [] h = (false, refl)
    find_total to zero seen (id ∷ queue) h = absurd (omega arith)
    find_total to (suc fuel) seen (id ∷ queue) h = elim (Bool-cases (same id to)) [
      | inl hit ↦ (true, rw (hit, find) refl)
      | inr miss ↦ elim (Bool-cases (contains seen id)) [
        | inl old ↦
            let (r, e) = find_total to fuel seen queue (omega arith) in (r, rw (miss, old, find) e)
        | inr new ↦
            let (r, e) =
              find_total to fuel (insert id seen) (queue ++ next id)
                (omega (arith, spend seen id new, length-append queue (next id))) in
            (r, rw (miss, new, find) e)
      ]
    ]
