-- ===== src/Cfg/DomStart.antt =====
-- The loop of computeDominators ends, at a solution of its dataflow problem.
use sast_engine.Prelude.{
  ◌≤◌, ◌<◌, String, ◌≡◌, refl, sym, ◌∙◌, ap, subst, Bool, true, false, not, ◌&&◌, ◌||◌, none, some,
  [], ◌∷◌, StrSet, contains, same, same_iff, if◌then◌else◌, length, arith, IsDistinct,
  contains-keep, Bool-cases, inl, inr, Subset, length-keep-le,
}
use sast_engine.Fixpoint.{SetMap, Problem, update, get, transfer}
use sast_engine.Fixpoint.Invariant.{Inv, transfer_iff}
use sast_engine.Fixpoint.Solve.{Solution, solve_total, weight, weight_bound}
use sast_engine.Fixpoint.Walks.{Walk, stop_skip, stop_dead, Unavoidable, walk_spec}
use sast_engine.Cfg.{Graph, set_of, rounds}
use sast_engine.Cfg.Build.{IsGraph, is_some-get_block}
use sast_engine.Cfg.Initial.{
  contains-set_of, set_of-IsDistinct, length-set_of-le, length_pos_of_contains, get-initial,
}
use sast_engine.Cfg.Dominance.{
  dom_problem, dom_start, reached_order, reached_from_entry, compute_dominators,
}

module _ (g : Graph) (ok : IsGraph g) where
  abbrev reached : StrSet
  reached = reached_from_entry g

  abbrev pub p : Problem
  p = dom_problem g (reached_from_entry g)

  abbrev pub live : String → Bool
  live = contains (reached_from_entry g)

  abbrev pub universe : StrSet
  universe = set_of (reached_order (reached_from_entry g) g.order)

  pub skip_lem : (k : String) → p.skip k ≡ (not (contains reached k) || same k g.entry)
  unfolding dom_problem
  skip_lem k = refl

  pub stays :
      (d : SetMap) (k : String) (v : StrSet)
      → contains p.order k ≡ true
      → p.skip k ≡ false
      → ((j : String) → p.admit d j ≡ live j)
      → (j : String) → p.admit (update d k v) j ≡ live j
  unfolding dom_problem
  stays d k v m n h j = refl

  pub contains-universe :
      (k : String) → contains universe k ≡ (contains g.order k && contains reached k)
  unfolding reached_order
  contains-universe k =
      contains-set_of (reached_order reached g.order) k ∙ contains-keep (contains reached) g.order k

  get-start :
      (k : String)
      → get (dom_start g reached) k
        ≡ (if contains universe k then if same k g.entry then k ∷ [] else universe else [])
  unfolding dom_start get
  get-start k =
      get-initial (λ id. same id g.entry) universe (λ j. none) (reached_order reached g.order) k
      ∙ ap (λ (b : Bool). if b then if same k g.entry then k ∷ [] else universe else [])
          (sym (contains-set_of (reached_order reached g.order) k))

  get-start_within :
      (k a : String) → contains (get (dom_start g reached) k) a ≡ true → contains universe a ≡ true
  unfolding contains
  get-start_within k a = rw get-start (ground (arith, same_iff k a))

  start-IsDistinct : (k : String) → IsDistinct (get (dom_start g reached) k)
  unfolding contains
  start-IsDistinct k = rw get-start (if_distinct (contains universe k) (same k g.entry))
    where
      if_distinct : (b c : Bool) → IsDistinct (if b then if c then k ∷ [] else universe else [])
      if_distinct true true = (refl, tt)
      if_distinct true false = set_of-IsDistinct (reached_order reached g.order)
      if_distinct false c = tt

  start_fixed :
      (k a : String)
      → contains g.order k ≡ true
      → live k ≡ true
      → p.skip k ≡ true
      → contains (get (dom_start g reached) k) a ≡ same k a
  unfolding contains
  start_fixed k a m l s =
      let u : contains universe k ≡ true = ground (arith, contains-universe k) in
      let e : same k g.entry ≡ true = ground (arith, skip_lem k) in
      rw (get-start, u, e) (ground arith)

  start_falls :
      (k : String)
      → contains g.order k ≡ true
      → p.skip k ≡ false
      → Subset (transfer p (dom_start g reached) k) (get (dom_start g reached) k)
  start_falls k m n a h =
      let u : contains universe k ≡ true = ground (arith, contains-universe k, skip_lem k) in
      let e : same k g.entry ≡ false = ground (arith, skip_lem k) in
      rw (get-start, u, e)
        (elim ((transfer_iff p (dom_start g reached) k a).0 h) [
          | inl q ↦ subst (λ j. contains universe j ≡ true) ((same_iff k a).0 q) u
          | inr ((j, mj, aj), all_j) ↦ get-start_within j a (all_j j mj aj)
        ])

  -- A reached name that is no block has no predecessors, so the only walk from it is itself.
  only_itself : (k : String) → live k ≡ true → contains universe k ≡ false → Walk p live k (k ∷ [])
  unfolding dom_problem
  only_itself k l u = elim (Bool-cases (p.skip k)) [
    | inl s ↦ stop_skip k s
    | inr n ↦ stop_dead k n λ j m. absurd (
        ground
          (arith, contains-universe k, ok.turned k j, ok.listed k, is_some-get_block g.blocks k))
  ]

  start_full :
      (k a : String)
      → live k ≡ true
      → Unavoidable p live universe k a
      → contains (get (dom_start g reached) k) a ≡ true
  unfolding contains
  start_full k a l (u, h) = elim (Bool-cases (contains universe k)) [
    | inl v ↦ elim (Bool-cases (same k g.entry)) [
      | inl e ↦ rw (get-start, v, e) (h (k ∷ []) (stop_skip k (ground (arith, skip_lem k))))
      | inr n ↦ rw (get-start, v, n) u
    ]
    | inr n ↦ absurd (ground (arith, h (k ∷ []) (only_itself k l n), same_iff k a))
  ]

  start_owner :
      (k a : String) → contains (get (dom_start g reached) k) a ≡ true → contains universe k ≡ true
  unfolding contains
  start_owner k a = rw get-start (ground arith)

  start-Inv : Inv p (walk_spec p live universe stays) (dom_start g reached)
  unfolding dom_problem
  start-Inv = record {
    admitted = λ j. refl;
    fixed = start_fixed;
    falls = start_falls;
    distinct = start-IsDistinct;
    within = λ k a h. (get-start_within k a h, start_owner k a h);
    full = start_full;
  }

  length-start-le : (k : String) → length (get (dom_start g reached) k) ≤ length g.order
  unfolding reached_order
  length-start-le k = rw get-start (
      ground (
        arith,
        contains-universe k,
        length_pos_of_contains g.order k,
        length-set_of-le (reached_order reached g.order),
        length-keep-le (contains reached) g.order,
      ))

  start_weight : weight p.order (dom_start g reached) < rounds g.order
  unfolding dom_problem
  start_weight =
      omega (arith, weight_bound (length g.order) g.order (dom_start g reached) length-start-le)

  pub solved :
      (d : SetMap) × (compute_dominators g ≡ some d)
      × Solution p (walk_spec p live universe stays) d
  unfolding compute_dominators
  solved = solve_total p _ (rounds g.order) (dom_start g reached) start-Inv start_weight
