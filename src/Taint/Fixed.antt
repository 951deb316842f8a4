-- ===== src/Taint/Fixed.antt =====
-- core/internal/taint/taint.go: every value whose hops are not yet taken waits on the queue, so that none
-- is left when the queue is empty.
use sast_engine.Prelude.{
  ℕ, String, ◌≡◌, refl, inl, inr, ◌⊎◌, true, false, none, some, List, [], ◌∷◌, contains, same,
  same_iff, arith, Bool-cases, same-cases, contains-insert, contains-append, Memᴰ, each,
  each-induction, subst,
}
use mathlib.Core.List.Memᴰ.{cases_cons, not-nil}
use sast_engine.Taint.{Edge, Engine, State, mark_tainted, keep_path, is_settled, carries_record}
use sast_engine.Taint.Rules.{Model}
use sast_engine.Taint.Propagate.{visit, propagate}
use sast_engine.Taint.Moves.{Moves, Moves-keeps, mark_tainted-keeps, carries_record-tainted}
use sast_engine.Taint.Round.{
  IsReady, round-Moves, popped-tainted, Moves-induction, rounds-induction, moves-induction,
}
use sast_engine.Taint.Seeded.{Seed, seed_edge, with_fields, seed_value, new_state, seeded}
use sast_engine.Taint.Total.{seeded-induction, seeded-IsReady}
use sast_engine.Taint.Closed.{
  Surely, HasNoRecords, Moves-HasNoRecords, mark_tainted-HasNoRecords, mark_tainted-marks,
}
use sast_engine.Taint.Complete.{visit-marks}

-- What waited still waits, and what is newly classified waits.
record Grows (st st' : State) : Type 0 where
  waits : (k : String) → contains st.queue k ≡ true → contains st'.queue k ≡ true
  fresh :
      (k : String)
      → contains st'.tainted k ≡ true
      → (contains st.tainted k ≡ true) ⊎ (contains st'.queue k ≡ true)

mark_tainted-waits :
    (m : Model) (id : String) (ed : Edge) (st : State) (k : String)
    → contains st.queue k ≡ true
    → contains (mark_tainted m id ed st).queue k ≡ true
unfolding mark_tainted keep_path
mark_tainted-waits m id ed st k h = ground (arith, contains-append st.queue (id ∷ []) k)

mark_tainted-fresh :
    (m : Model) (id : String) (ed : Edge) (st : State) (k : String)
    → contains (mark_tainted m id ed st).tainted k ≡ true
    → (contains st.tainted k ≡ true) ⊎ (contains (mark_tainted m id ed st).queue k ≡ true)
unfolding mark_tainted keep_path contains
mark_tainted-fresh m id ed st k h = elim (Bool-cases (is_settled m id ed st)) [
  | inl settled ↦ inl (rw (settled, mark_tainted) at h)
  | inr n ↦ elim (same-cases id k) [
    | inl eq ↦ inr (ground (arith, n, contains-append st.queue (id ∷ []) k, same_iff id k))
    | inr o ↦ inl (ground (arith, contains-insert id st.tainted k))
  ]
]

mark_tainted-Grows :
    (m : Model) (id : String) (ed : Edge) (start st : State)
    → Grows start st
    → Grows start (mark_tainted m id ed st)
mark_tainted-Grows m id ed start st g = record {
  waits = λ k h. mark_tainted-waits m id ed st k (g.waits k h);
  fresh = λ k h. elim (mark_tainted-fresh m id ed st k h) [
    | inr new ↦ inr new
    | inl old ↦ elim (g.fresh k old) [
      | inl before ↦ inl before
      | inr q ↦ inr (mark_tainted-waits m id ed st k q)
    ]
  ];
}

carries_record-Grows :
    (from to : String) (start st : State) → Grows start st → Grows start (carries_record from to st)
unfolding carries_record
carries_record-Grows from to start st g = record {
  waits = λ k h. ground (arith, g.waits k h);
  fresh = λ k h. ground (arith, g.fresh k);
}

Moves-Grows : (e : Engine) (st st' : State) → Moves e st st' → Grows st st'
Moves-Grows e st st' m =
    Moves-induction e (Grows st) (λ s id ed t l g. mark_tainted-Grows e.model id ed st s g)
      (λ s from to g. carries_record-Grows from to st s g) st st' m
      record { waits = λ k h. h; fresh = λ k h. inl h }

module _ (e : Engine) where
  abbrev Served : State → String → Type 0
  Served st k = (y : String) → Surely e k y → same y "" ≡ false → contains st.tainted y ≡ true

  -- A classified value waits, or its sure hops are taken.
  record IsServing (st : State) : Type 0 where
    bare : HasNoRecords st
    served :
        (k : String) → contains st.tainted k ≡ true → (contains st.queue k ≡ true) ⊎ Served st k

  round-IsServing :
      (st : State) (id : String) (rest : List String)
      → IsReady e st
      → st.queue ≡ id ∷ rest
      → IsServing st
      → IsServing (visit e id record st { queue = rest })
  unfolding contains
  round-IsServing st id rest q w i =
      let st' : State = record st { queue = rest } in
      let t = popped-tainted st id rest q.0 w in
      let m = round-Moves e st id rest q w in
      let g = Moves-Grows e st' (visit e id st') m in
      record {
        bare = Moves-HasNoRecords e st' (visit e id st') m i.bare;
        served = λ k h. elim (same-cases id k) [
          | inl eq ↦ inr (
              subst (Served (visit e id st')) eq (λ y s n. visit-marks e id st' t i.bare q.1 y s n))
          | inr o ↦ elim (g.fresh k h) [
            | inr waits ↦ inl waits
            | inl old ↦ elim (i.served k old) [
              | inl waited ↦
                  let waited' : contains (id ∷ rest) k ≡ true = rw w at waited in
                  inl (g.waits k (ground (arith, waited', o)))
              | inr s ↦ inr (λ y h' n. Moves-keeps e st' (visit e id st') m y (s y h' n))
            ]
          ]
        ];
      }

seed_value-marks :
    (m : Model) (s : Seed) (st : State)
    → same s.id "" ≡ false
    → contains (seed_value m s st).tainted s.id ≡ true
unfolding seed_value
seed_value-marks m s st n = mark_tainted-marks m s.id (seed_edge s) (with_fields s st) n

seed_value-keeps :
    (m : Model) (s : Seed) (st : State) (k : String)
    → contains st.tainted k ≡ true
    → contains (seed_value m s st).tainted k ≡ true
unfolding seed_value with_fields
seed_value-keeps m s st k h =
    mark_tainted-keeps m s.id (seed_edge s) (with_fields s st) k (ground (arith, h))

seeds-marked :
    (m : Model) (seeds : List Seed) (st : State) (s : Seed)
    → Memᴰ s seeds
    → same s.id "" ≡ false
    → contains (each (seed_value m) seeds st).tainted s.id ≡ true
unfolding each
seeds-marked m [] st s h n = absurd (not-nil h)
seeds-marked m (z ∷ seeds) st s h n = elim (cases_cons h) [
  | inr r ↦ seeds-marked m seeds (seed_value m z st) s r n
  | inl eq ↦
      each-induction (λ t. contains t.tainted s.id ≡ true) (seed_value m) seeds (seed_value m z st)
        (λ w t l k. seed_value-keeps m w t s.id k)
        (subst (λ w. contains (seed_value m w st).tainted s.id ≡ true) eq
          (seed_value-marks m s st n))
]

-- what sure hops lead to from some values
pub data SurelyCarried (e : Engine) (seeds : List Seed) : String → Type 0 where
  root : (s : Seed) → Memᴰ s seeds → same s.id "" ≡ false → SurelyCarried e seeds s.id
  hop :
      (j k : String)
      → SurelyCarried e seeds j
      → Surely e j k
      → same k "" ≡ false
      → SurelyCarried e seeds k

module _ (e : Engine) (seeds : List Seed) where
  -- The sources wait when the propagation starts.
  seeded-waits :
      (k : String)
      → contains (seeded e seeds).tainted k ≡ true
      → contains (seeded e seeds).queue k ≡ true
  unfolding seed_value new_state contains with_fields
  seeded-waits =
      seeded-induction e
        (λ st. (k : String) → contains st.tainted k ≡ true → contains st.queue k ≡ true) seeds
        (λ k h. cc)
        λ s st m p k h.
          elim (mark_tainted-fresh e.model s.id (seed_edge s) (with_fields s st) k h) [
            | inr new ↦ new
            | inl old ↦
                mark_tainted-waits e.model s.id (seed_edge s) (with_fields s st) k
                  (ground (arith, old, p k))
          ]

  module _ (rowless : (s : Seed) → Memᴰ s seeds → s.fields ≡ none) where
    seeded-HasNoRecords : HasNoRecords (seeded e seeds)
    unfolding seed_value with_fields new_state seed_edge
    seeded-HasNoRecords =
        seeded-induction e HasNoRecords seeds (λ k. refl)
          λ s st m h.
            rw (rowless s m, with_fields)
              (mark_tainted-HasNoRecords e.model s.id (seed_edge s) st h)

    propagate_closed :
        (fuel : ℕ) (r : State)
        → propagate e fuel (seeded e seeds) ≡ some r
        → (k y : String) → contains r.tainted k ≡ true
        → Surely e k y
        → same y "" ≡ false
        → contains r.tainted y ≡ true
    unfolding contains
    propagate_closed fuel r h k y t s n =
        let start : IsServing e (seeded e seeds) = record {
          bare = seeded-HasNoRecords;
          served = λ j w. inl (seeded-waits j w);
        } in
        let (i, idle) =
          rounds-induction e (IsServing e) (round-IsServing e) fuel (seeded e seeds) r
            (seeded-IsReady e seeds) start h in
        elim (i.served k t) [
          | inl waits ↦ let bad : contains [] k ≡ true = rw idle at waits in cc
          | inr done ↦ done y s n
        ]

    -- If no source is a row of a store, the propagation classifies every value that is led to from a
    -- source by hops that are taken whatever the state: the flows, the arguments that a parameter takes
    -- whole, the results of calls that are not local, complete no promise and read no store, and those of
    -- methods that are not local.
    pub propagate_complete :
        (fuel : ℕ) (r : State)
        → propagate e fuel (seeded e seeds) ≡ some r
        → (k : String) → SurelyCarried e seeds k
        → contains r.tainted k ≡ true
    unfolding seeded
    propagate_complete fuel r h _ (root s m n) =
        moves-induction e (λ st. contains st.tainted s.id ≡ true) (λ st rest t. t)
          (λ st id ed t l k. mark_tainted-keeps e.model id ed st s.id k)
          (λ st from to k. rw (carries_record-tainted from to st) k) fuel (seeded e seeds) r
          (seeded-IsReady e seeds) (seeds-marked e.model seeds new_state s m n) h
    propagate_complete fuel r h k (hop j _ w s n) =
        propagate_closed fuel r h j k (propagate_complete fuel r h j w) s n
