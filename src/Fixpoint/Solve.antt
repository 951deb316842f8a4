-- ===== src/Fixpoint/Solve.antt =====
-- The sweeps end within a known number of rounds, at sets that a further sweep leaves as they are.
use sast_engine.Prelude.{
  ℕ, zero, suc, ◌≤◌, ◌<◌, ◌+◌, ◌*◌, String, ◌≡◌, refl, ◌∙◌, ap, subst, inl, inr, Bool, true, false,
  List, [], ◌∷◌, StrSet, contains, same_iff, same_self, arith, Bool-cases, some, same-cases, Subset,
  length, same_set, length-lt_of_not-same_set, contains-tail, contains-head,
}
use sast_engine.Fixpoint.{SetMap, update, get, Problem, transfer, visit, sweep, solve}
use sast_engine.Fixpoint.Transfer.{get-update, transfer-IsDistinct}
use sast_engine.Fixpoint.Invariant.{Spec, Inv, step-Inv}

-- the keys of all the sets
unfoldable pub weight : List String → SetMap → ℕ
weight [] d = 0
weight (k ∷ ks) d = length (get d k) + weight ks d

weight-update-le :
    (ks : List String) (d : SetMap) (k : String) (v : StrSet)
    → length v ≤ length (get d k)
    → weight ks (update d k v) ≤ weight ks d
unfolding weight
weight-update-le [] d k v h = omega arith
weight-update-le (j ∷ ks) d k v h = elim (same-cases k j) [
  | inl e ↦ rw (← e, get-update, same_self k) (omega (arith, weight-update-le ks d k v h))
  | inr e ↦ rw (get-update, e) (omega (arith, weight-update-le ks d k v h))
]

weight-update-lt :
    (ks : List String) (d : SetMap) (k : String) (v : StrSet)
    → contains ks k ≡ true
    → length v < length (get d k)
    → weight ks (update d k v) < weight ks d
unfolding weight contains
weight-update-lt [] d k v m h = cc
weight-update-lt (j ∷ ks) d k v m h = elim (same-cases k j) [
  | inl e ↦
      rw (← e, get-update, same_self k) (omega (arith, weight-update-le ks d k v (omega arith)))
  | inr e ↦
      let m' : contains ks k ≡ true = ground (arith, same_iff j k, same_iff k j) in
      rw (get-update, e) (omega (arith, weight-update-lt ks d k v m' h))
]

pub weight_bound :
    (n : ℕ) (ks : List String) (d : SetMap)
    → ((k : String) → length (get d k) ≤ n)
    → weight ks d ≤ length ks * n
unfolding weight
weight_bound n [] d h = omega arith
weight_bound n (k ∷ ks) d h = omega (arith, h k, weight_bound n ks d h)

module _ (p : Problem) (s : Spec p) where
  -- A visit would change nothing at the block.
  abbrev pub Settled : SetMap → String → Type 0
  Settled d k = p.skip k ≡ false → same_set (transfer p d k) (get d k) ≡ true

  -- What a visit or a sweep of the blocks `ks` does, from the flag `c`.
  pub record Outcome (ks : List String) (d : SetMap) (c : Bool) (d' : SetMap) (c' : Bool)
      : Type 0 where
    pub inv : Inv p s d'
    pub le : weight p.order d' ≤ weight p.order d
    pub falls : c ≡ false → c' ≡ true → weight p.order d' < weight p.order d
    pub keeps : c ≡ true → c' ≡ true
    pub same_map : c' ≡ false → d' ≡ d
    pub settled : c' ≡ false → (k : String) → contains ks k ≡ true → Settled d k

  visit-Outcome :
      (d : SetMap) (c : Bool) (k : String)
      → Inv p s d
      → contains p.order k ≡ true
      → Outcome (k ∷ []) d c (visit p d c k).0 (visit p d c k).1
  unfolding visit contains
  visit-Outcome d c k i m = elim (Bool-cases (p.skip k)) [
    | inl sk ↦ rw sk (record {
      inv = i;
      le = omega arith;
      falls = λ e f. cc;
      keeps = λ e. e;
      same_map = λ e. refl;
      settled = λ e j mj nj. ground (arith, same_iff k j);
    })
    | inr nk ↦ elim (Bool-cases (same_set (transfer p d k) (get d k))) [
      | inl eq ↦
          rw (nk, eq)
            (record {
              inv = i;
              le = omega arith;
              falls = λ e f. cc;
              keeps = λ e. e;
              same_map = λ e. refl;
              settled = λ e j mj nj. ground (arith, same_iff k j);
            })
      | inr ne ↦
          let shorter : length (transfer p d k) < length (get d k) =
            length-lt_of_not-same_set (transfer p d k) (get d k)
              (transfer-IsDistinct p d k i.distinct) (i.falls k m nk) ne in
          let falls = weight-update-lt p.order d k (transfer p d k) m shorter in
          rw (nk, ne)
            (record {
              inv = step-Inv p s d k i m nk;
              le = omega arith;
              falls = λ e f. falls;
              keeps = λ e. refl;
              same_map = λ e. cc;
              settled = λ e. cc;
            })
    ]
  ]

  -- A visit of one block, and then a sweep of others.
  Outcome-cons :
      (k : String) (ks : List String) (d d1 d2 : SetMap) (c c1 c2 : Bool)
      → Outcome (k ∷ []) d c d1 c1
      → Outcome ks d1 c1 d2 c2
      → Outcome (k ∷ ks) d c d2 c2
  unfolding contains
  Outcome-cons k ks d d1 d2 c c1 c2 first rest = record {
    inv = rest.inv;
    le = omega (arith, first.le, rest.le);
    falls = falls;
    keeps = λ e. rest.keeps (first.keeps e);
    same_map = λ e. rest.same_map e ∙ first.same_map (was_false e);
    settled = settled;
  }
    where
      was_false : c2 ≡ false → c1 ≡ false
      was_false e = elim (Bool-cases c1) [
        | inl t ↦ let t' : c2 ≡ true = rest.keeps t in cc
        | inr f ↦ f
      ]

      falls : c ≡ false → c2 ≡ true → weight p.order d2 < weight p.order d
      falls e f = elim (Bool-cases c1) [
        | inl t ↦ omega (arith, first.falls e t, rest.le)
        | inr u ↦ omega (arith, rest.falls u f, first.le)
      ]

      settled : c2 ≡ false → (j : String) → contains (k ∷ ks) j ≡ true → Settled d j
      settled e j mj = elim (same-cases k j) [
        | inl eq ↦ first.settled (was_false e) j (rw (← eq) (contains-head k []))
        | inr ne ↦
            subst (λ d'. Settled d' j) (first.same_map (was_false e))
              (rest.settled e j (ground arith))
      ]

  sweep-Outcome :
      (ks : List String) (d : SetMap) (c : Bool)
      → Inv p s d
      → Subset ks p.order
      → Outcome ks d c (sweep p ks d c).0 (sweep p ks d c).1
  unfolding sweep contains
  sweep-Outcome [] d c i h = record {
    inv = i;
    le = omega arith;
    falls = λ e f. cc;
    keeps = λ e. e;
    same_map = λ e. refl;
    settled = λ e j mj nj. cc;
  }
  sweep-Outcome (k ∷ ks) d c i h =
      let first = visit-Outcome d c k i (h k (contains-head k ks)) in
      let rest = sweep-Outcome ks _ _ first.inv (λ j m. h j (contains-tail k ks j m)) in
      Outcome-cons k ks d _ _ c _ _ first rest

  -- The sets at which the loop stops.
  pub record Solution (d : SetMap) : Type 0 where
    pub inv : Inv p s d
    pub settled : (k : String) → contains p.order k ≡ true → Settled d k

  -- With more fuel than the sets have keys, the loop stops, at a solution.
  pub solve_total :
      (fuel : ℕ) (d : SetMap)
      → Inv p s d
      → weight p.order d < fuel
      → (d' : SetMap) × (solve p fuel d ≡ some d') × Solution d'
  unfolding solve
  solve_total zero d i h = absurd (omega arith)
  solve_total (suc fuel) d i h = elim (Bool-cases (sweep p p.order d false).1) [
    | inl changed ↦
        let (d', e, sol) = solve_total fuel _ once.inv (omega (arith, once.falls refl changed)) in
        (d', rw (changed, solve) e, sol)
    | inr stopped ↦ (
      d,
      rw (stopped, solve) (ap some (once.same_map stopped)),
      record { inv = i; settled = once.settled stopped },
    )
  ]
    where
      once : Outcome p.order d false (sweep p p.order d false).0 (sweep p p.order d false).1
      once = sweep-Outcome p.order d false i (λ k m. m)
