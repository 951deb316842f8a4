-- ===== src/Worklist/Search.antt =====
-- The searches find exactly what can be reached.
use sast_engine.Prelude.{
  ℕ, zero, suc, String, ◌≡◌, refl, inl, inr, ◌↔◌, Bool, true, false, ◌||◌, some, List, [], ◌∷◌,
  ◌++◌, StrSet, insert, contains, same, same_iff, arith, Bool-cases, same-cases, contains-insert,
  contains-append, contains-head, contains-tail, if◌then◌else◌, subst,
}
use sast_engine.Worklist.{explore, find, Reach, root, edge}

module _ (next : String → List String) (roots : List String) where
  -- What holds of the names that are expanded and of those on the queue.
  pub record Inv (seen : StrSet) (queue : List String) : Type 0 where
    pub from_roots :
        (k : String) → contains roots k ≡ true → (contains seen k || contains queue k) ≡ true
    pub from_seen :
        (j k : String)
        → contains seen j ≡ true
        → contains (next j) k ≡ true
        → (contains seen k || contains queue k) ≡ true
    pub seen_sound : (k : String) → contains seen k ≡ true → Reach next roots k
    pub queue_sound : (k : String) → contains queue k ≡ true → Reach next roots k

  pub Inv-start : Inv [] roots
  unfolding contains
  Inv-start = record {
    from_roots = λ k m. m;
    from_seen = λ j k m e. cc;
    seen_sound = λ k m. cc;
    queue_sound = λ k m. root k m;
  }

  pub Inv-drop :
      (seen : StrSet) (id : String) (queue : List String)
      → Inv seen (id ∷ queue)
      → contains seen id ≡ true
      → Inv seen queue
  unfolding contains
  Inv-drop seen id queue i h = record {
    from_roots = λ k m. ground (arith, i.from_roots k m, same_iff id k);
    from_seen = λ j k m e. ground (arith, i.from_seen j k m e, same_iff id k);
    seen_sound = i.seen_sound;
    queue_sound = λ k m. i.queue_sound k (contains-tail id queue k m);
  }

  pub Inv-expand :
      (seen : StrSet) (id : String) (queue : List String)
      → Inv seen (id ∷ queue)
      → Inv (insert id seen) (queue ++ next id)
  unfolding contains
  Inv-expand seen id queue i = record {
    from_roots = λ k m. ground (arith, i.from_roots k m, ins k, app k);
    from_seen = λ j k m e. elim (same-cases id j) [
      | inl eq ↦ let e' : contains (next id) k ≡ true = rw eq e in ground (arith, ins k, app k)
      | inr ne ↦ ground (arith, i.from_seen j k, ins k, ins j, app k)
    ];
    seen_sound = λ k m. elim (same-cases id k) [
      | inl eq ↦ subst (Reach next roots) eq reach_id
      | inr ne ↦ i.seen_sound k (ground (arith, ins k))
    ];
    queue_sound = λ k m. elim (Bool-cases (contains queue k)) [
      | inl old ↦ i.queue_sound k (contains-tail id queue k old)
      | inr new ↦ edge id k reach_id (ground (arith, app k))
    ];
  }
    where
      ins :
          (k : String) → contains (insert id seen) k ≡ (if same id k then true else contains seen k)
      ins k = contains-insert id seen k

      app :
          (k : String) → contains (queue ++ next id) k ≡ (contains queue k || contains (next id) k)
      app k = contains-append queue (next id) k

      reach_id : Reach next roots id
      reach_id = i.queue_sound id (contains-head id queue)

  -- With the queue empty, the expanded names are all that can be reached.
  pub Inv-done :
      (seen : StrSet) → Inv seen [] → (k : String) → Reach next roots k → contains seen k ≡ true
  unfolding contains
  Inv-done seen i k (root _ m) = ground (arith, i.from_roots k m)
  Inv-done seen i k (edge j _ r m) = ground (arith, i.from_seen j k (Inv-done seen i j r) m)

  explore-Inv :
      (fuel : ℕ) (seen : StrSet) (queue : List String) (r : StrSet)
      → Inv seen queue
      → explore next fuel seen queue ≡ some r
      → Inv r []
  unfolding explore
  explore-Inv fuel seen [] r i h = let e : seen ≡ r = cc in subst (λ s. Inv s []) e i
  explore-Inv zero seen (id ∷ queue) r i h = cc
  explore-Inv (suc fuel) seen (id ∷ queue) r i h = elim (Bool-cases (contains seen id)) [
    | inl old ↦
        explore-Inv fuel seen queue r (Inv-drop seen id queue i old) (rw (old, explore) at h)
    | inr new ↦
        explore-Inv fuel (insert id seen) (queue ++ next id) r (Inv-expand seen id queue i)
          (rw (new, explore) at h)
  ]

  -- The first search returns the blocks that can be reached, and no others.
  pub explore_iff :
      (fuel : ℕ) (r : StrSet)
      → explore next fuel [] roots ≡ some r
      → (k : String) → (contains r k ≡ true) ↔ Reach next roots k
  explore_iff fuel r h k =
      let i = explore-Inv fuel [] roots r Inv-start h in (i.seen_sound k, Inv-done r i k)

  find-Inv :
      (to : String) (fuel : ℕ) (seen : StrSet) (queue : List String) (r : Bool)
      → Inv seen queue
      → contains seen to ≡ false
      → find next to fuel seen queue ≡ some r
      → (r ≡ true) ↔ Reach next roots to
  unfolding find
  find-Inv to fuel seen [] r i n h = (λ e. cc, λ w. let m = Inv-done seen i to w in cc)
  find-Inv to zero seen (id ∷ queue) r i n h = cc
  find-Inv to (suc fuel) seen (id ∷ queue) r i n h = elim (Bool-cases (same id to)) [
    | inl hit ↦
        let e : some true ≡ some r = rw (hit, find) at h in
        (
          λ _.
              subst (Reach next roots) ((same_iff id to).0 hit)
                (i.queue_sound id (contains-head id queue)),
          λ _. cc,
        )
    | inr miss ↦ elim (Bool-cases (contains seen id)) [
      | inl old ↦
          find-Inv to fuel seen queue r (Inv-drop seen id queue i old) n (rw (miss, old, find) at h)
      | inr new ↦
          find-Inv to fuel (insert id seen) (queue ++ next id) r (Inv-expand seen id queue i)
            (ground (arith, contains-insert id seen to)) (rw (miss, new, find) at h)
    ]
  ]

  -- The second search says whether its target can be reached.
  pub find_iff :
      (to : String) (fuel : ℕ) (r : Bool)
      → find next to fuel [] roots ≡ some r
      → (r ≡ true) ↔ Reach next roots to
  unfolding contains
  find_iff to fuel r h = find-Inv to fuel [] roots r Inv-start refl h
