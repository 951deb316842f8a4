-- ===== src/Cfg/PostStart.antt =====
-- The sets that the loop of computePostDominators starts from, and what the loop keeps of them.
use sast_engine.Prelude.{
  ℕ, ◌*◌, ◌≤◌, ◌<◌, String, ◌≡◌, refl, sym, ◌∙◌, ap, subst, Bool, true, false, ◌&&◌, none, some,
  List, [], ◌∷◌, StrSet, contains, same, same_iff, if◌then◌else◌, length, arith, IsDistinct, nat_eq,
  Bool-cases, inl, inr, Subset,
}
use mathlib.Core.List.{reverse}
use sast_engine.Ir.{Block}
use sast_engine.Fixpoint.{SetMap, Problem, update, get, transfer}
use sast_engine.Fixpoint.Transfer.{is_some-update}
use sast_engine.Fixpoint.Invariant.{Inv, transfer_iff}
use sast_engine.Fixpoint.Solve.{Solution, solve_total, weight, weight_bound}
use sast_engine.Fixpoint.Walks.{stop_skip, Unavoidable as Unavoided, walk_spec}
use sast_engine.Cfg.{
  successors, set_of, exits, rounds, post_problem, post_start, compute_post_dominators,
}
use sast_engine.Cfg.Initial.{
  contains-set_of, set_of-IsDistinct, length-set_of-le, length_pos_of_contains, contains-reverse,
  length-reverse, is_some-initial, get-initial,
}

pub contains-exits :
    (bs : List Block) (ids : List String) (k : String)
    → contains (exits bs ids) k ≡ (contains ids k && nat_eq (length (successors bs k)) 0)
unfolding exits contains
contains-exits bs [] k = refl
contains-exits bs (id ∷ ids) k = ground (arith, same_iff id k, contains-exits bs ids k)

module _ (bs : List Block) (order : List String) where
  abbrev pub p : Problem
  p = post_problem bs order

  abbrev pub own : String → Bool
  own = contains (set_of (exits bs order))

  abbrev pub live : String → Bool
  live = contains order

  pub own_lem : (k : String) → own k ≡ (contains order k && nat_eq (length (successors bs k)) 0)
  own_lem k = contains-set_of (exits bs order) k ∙ contains-exits bs order k

  pub skip_lem : (k : String) → p.skip k ≡ nat_eq (length (successors bs k)) 0
  unfolding post_problem
  skip_lem k = ground (arith, own_lem k)

  pub listed_lem : (k : String) → contains p.order k ≡ contains order k
  unfolding post_problem
  listed_lem k = contains-reverse order k

  pub stays :
      (d : SetMap) (k : String) (v : StrSet)
      → contains p.order k ≡ true
      → p.skip k ≡ false
      → ((j : String) → p.admit d j ≡ live j)
      → (j : String) → p.admit (update d k v) j ≡ live j
  unfolding post_problem
  stays d k v m n h j =
      ground (arith, is_some-update d k v j, h j, same_iff k j, contains-reverse order k)

  pub get-start :
      (k : String)
      → get (post_start bs order) k
        ≡ (if contains order k then if own k then k ∷ [] else set_of order else [])
  unfolding post_start get
  get-start k = get-initial own (set_of order) (λ j. none) order k

  pub admitted-start : (k : String) → p.admit (post_start bs order) k ≡ live k
  unfolding post_problem post_start
  admitted-start k = is_some-initial own (set_of order) (λ j. none) order k ∙ ground arith

  pub get-start_within :
      (k a : String)
      → contains (get (post_start bs order) k) a ≡ true
      → contains (set_of order) a ≡ true
  unfolding contains
  get-start_within k a = rw get-start (ground (arith, same_iff k a, contains-set_of order k))

  pub start-IsDistinct : (k : String) → IsDistinct (get (post_start bs order) k)
  unfolding contains
  start-IsDistinct k = rw get-start (if_distinct (contains order k) (own k))
    where
      if_distinct : (b c : Bool) → IsDistinct (if b then if c then k ∷ [] else set_of order else [])
      if_distinct true true = (refl, tt)
      if_distinct true false = set_of-IsDistinct order
      if_distinct false c = tt

  pub start_fixed :
      (k a : String)
      → live k ≡ true
      → p.skip k ≡ true
      → contains (get (post_start bs order) k) a ≡ same k a
  unfolding contains
  start_fixed k a l s =
      let o : own k ≡ true = ground (arith, own_lem k, skip_lem k) in
      rw (get-start, l, o) (ground arith)

  pub start_falls :
      (k : String)
      → contains p.order k ≡ true
      → p.skip k ≡ false
      → Subset (transfer p (post_start bs order) k) (get (post_start bs order) k)
  start_falls k m n a h =
      let l : contains order k ≡ true = sym (listed_lem k) ∙ m in
      let o : own k ≡ false = ground (arith, own_lem k, skip_lem k) in
      rw (get-start, l, o)
        (elim ((transfer_iff p (post_start bs order) k a).0 h) [
          | inl e ↦ rw contains-set_of (subst (λ j. contains order j ≡ true) ((same_iff k a).0 e) l)
          | inr ((j, mj, aj), all_j) ↦ get-start_within j a (all_j j mj aj)
        ])

  pub start_full :
      (k a : String)
      → live k ≡ true
      → Unavoided p live (set_of order) k a
      → contains (get (post_start bs order) k) a ≡ true
  unfolding contains
  start_full k a l (u, h) = elim (Bool-cases (own k)) [
    | inl o ↦
        let s : p.skip k ≡ true = ground (arith, own_lem k, skip_lem k) in
        rw (get-start, l, o) (h (k ∷ []) (stop_skip k s))
    | inr n ↦ rw (get-start, l, n) u
  ]

  pub start_owner :
      (k a : String)
      → contains (get (post_start bs order) k) a ≡ true
      → contains (set_of order) k ≡ true
  unfolding contains
  start_owner k a = rw get-start (ground (arith, contains-set_of order k))

  pub start-Inv : Inv p (walk_spec p live (set_of order) stays) (post_start bs order)
  start-Inv = record {
    admitted = admitted-start;
    fixed = λ k a _ l s. start_fixed k a l s;
    falls = start_falls;
    distinct = start-IsDistinct;
    within = λ k a h. (get-start_within k a h, start_owner k a h);
    full = start_full;
  }

  pub length-start-le : (k : String) → length (get (post_start bs order) k) ≤ length order
  length-start-le k =
      rw get-start (ground (arith, length_pos_of_contains order k, length-set_of-le order))

  pub start_weight : weight p.order (post_start bs order) < rounds order
  unfolding post_problem
  start_weight = omega (
    arith,
    weight_bound (length order) (reverse order) (post_start bs order) length-start-le,
    ap (λ (n : ℕ). n * length order) (length-reverse order),
  )

  pub solved :
      (d : SetMap) × (compute_post_dominators bs order ≡ some d)
      × Solution p (walk_spec p live (set_of order) stays) d
  unfolding compute_post_dominators
  solved = solve_total p _ (rounds order) (post_start bs order) start-Inv start_weight
