-- ===== src/Fixpoint/Walks.antt =====
-- The sets of a solution are those of the keys that no walk avoids.
use sast_engine.Prelude.{
  String, ◌≡◌, ◌⊎◌, inl, inr, Bool, true, false, List, [], ◌∷◌, StrSet, contains, same, same_iff,
  arith, Bool-cases, contains-head, contains-tail,
}
use sast_engine.Fixpoint.{SetMap, update, Problem}
use sast_engine.Fixpoint.Invariant.{Spec}

-- The walks that go from a block to its inputs, through blocks that count, and end at a block that
-- the sweep passes over or that has no input that counts.
pub data Walk (p : Problem) (live : String → Bool) : String → List String → Type 0 where
  stop_skip : (k : String) → p.skip k ≡ true → Walk p live k (k ∷ [])
  stop_dead :
      (k : String)
      → p.skip k ≡ false
      → ((j : String) → contains (p.inputs k) j ≡ true → live j ≡ false)
      → Walk p live k (k ∷ [])
  onward :
      (k j : String) (w : List String)
      → p.skip k ≡ false
      → contains (p.inputs k) j ≡ true
      → live j ≡ true
      → Walk p live j w
      → Walk p live k (k ∷ w)

-- the first block among some that counts
first_live :
    (live : String → Bool) (ks : List String)
    → ((j : String) × (contains ks j ≡ true) × (live j ≡ true))
      ⊎ ((j : String) → contains ks j ≡ true → live j ≡ false)
unfolding contains
first_live live [] = inr (λ j m. cc)
first_live live (k ∷ ks) = elim (Bool-cases (live k)) [
  | inl l ↦ inl (k, contains-head k ks, l)
  | inr n ↦ elim (first_live live ks) [
    | inl (j, m, l) ↦ inl (j, contains-tail k ks j m, l)
    | inr none_live ↦ inr (λ j m. ground (arith, same_iff k j, none_live j))
  ]
]

module _ (p : Problem) (live : String → Bool) (universe : StrSet) where
  abbrev pub Unavoidable : String → String → Type 0
  Unavoidable k a =
      (contains universe a ≡ true) × ((w : List String) → Walk p live k w → contains w a ≡ true)

  pub Unavoidable-step :
      (k a : String)
      → p.skip k ≡ false
      → Unavoidable k a
      → (same k a ≡ true)
        ⊎ ((j : String) × (contains (p.inputs k) j ≡ true) × (live j ≡ true))
          × ((j : String) → contains (p.inputs k) j ≡ true → live j ≡ true → Unavoidable j a)
  unfolding contains
  Unavoidable-step k a n (u, h) = elim (Bool-cases (same k a)) [
    | inl e ↦ inl e
    | inr ne ↦ elim (first_live live (p.inputs k)) [
      | inl found ↦
          inr (found, λ j m l. (u, λ w walk. ground (arith, h (k ∷ w) (onward k j w n m l walk))))
      | inr dead ↦ absurd (ground (arith, h (k ∷ []) (stop_dead k n dead)))
    ]
  ]

  -- The specification of the sets, for laws of `admit` that the client proves.
  abbrev pub walk_spec :
      ((d : SetMap) (k : String) (v : StrSet)
        → contains p.order k ≡ true
        → p.skip k ≡ false
        → ((j : String) → p.admit d j ≡ live j)
        → (j : String) → p.admit (update d k v) j ≡ live j)
      → Spec p
  walk_spec stays = record {
    live = live;
    Forced = Unavoidable;
    Within = λ k a. (contains universe a ≡ true) × (contains universe k ≡ true);
    stays = stays;
    forced = λ k a l n u. Unavoidable-step k a n u;
  }
