-- ===== src/Taint/Evidence.antt =====
-- core/internal/taint/taint.go: the kept paths do not come by a value twice, so that the walks along
-- them (tracePath, originOf) are not cut by the test for a value seen before.
use sast_engine.Prelude.{
  ℕ, suc, ◌+◌, ◌≤◌, ◌<◌, String, ◌≡◌, refl, inl, inr, true, false, Option, some, List, [], ◌∷◌,
  ◌++◌, contains, StrSet, arith, Bool-cases, same-cases, contains-insert, insert, IsDistinct,
  insert-IsDistinct, Subset, length-le_of_Subset, length, sym, ap, subst, ◌∙◌, some-injective,
}
use sast_engine.Taint.{Edge, Engine, State}
use sast_engine.Taint.Leads.{Leads}
use sast_engine.Taint.Chain.{IsTraced, Traced, source, after, Traced-tainted}
use sast_engine.Taint.Path.{Hop, hop_of}

-- The hops are those of the kept edges, from a source to a value.
pub data Kept (e : Engine) (roots : List String) (pred : String → Option Edge)
    : List Hop → String → String → Type 0 where
  start :
      (k : String) (ed : Edge)
      → pred k ≡ some ed
      → ed.from ≡ ""
      → contains roots k ≡ true
      → Kept e roots pred (hop_of ed ∷ []) k k
  extend :
      (path : List Hop) (o k : String) (ed : Edge)
      → Kept e roots pred path o ed.from
      → pred k ≡ some ed
      → Leads e ed.from k
      → Kept e roots pred (path ++ hop_of ed ∷ []) o k

module _ (e : Engine) (roots : List String) (st : State) (i : IsTraced e roots st) where
  abbrev pub At : ℕ → String → Type 0
  At = Traced e roots st.tainted st.pred st.chain

  -- The empty text is not classified, so no path comes by it.
  pub nameless : (n : ℕ) (k : String) → k ≡ "" → ¬ At n k
  nameless n k eq tr =
      let t = Traced-tainted e roots st.tainted st.pred st.chain n k tr in
      let t' : contains st.tainted "" ≡ true = rw eq at t in let f = i.named in cc

  -- A value has one distance from its source.
  distance_unique : (n m : ℕ) (k : String) → At n k → At m k → n ≡ m
  distance_unique _ _ k (source _ ed t p f r) (source _ ed' t' p' f' r') = refl
  distance_unique _ _ k (source _ ed t p f r) (after m _ ed' t' p' c l tr) =
      let eq : ed ≡ ed' = some-injective ed ed' (sym p ∙ p') in
      absurd (nameless m ed'.from (sym (ap (λ (w : Edge). w.from) eq) ∙ f) tr)
  distance_unique _ _ k (after n _ ed t p c l tr) (source _ ed' t' p' f' r') =
      let eq : ed ≡ ed' = some-injective ed ed' (sym p ∙ p') in
      absurd (nameless n ed.from (ap (λ (w : Edge). w.from) eq ∙ f') tr)
  distance_unique _ _ k (after n _ ed t p c l tr) (after m _ ed' t' p' c' l' tr') =
      let eq : ed ≡ ed' = some-injective ed ed' (sym p ∙ p') in
      ap suc
        (distance_unique n m ed.from tr (subst (At m) (sym (ap (λ (w : Edge). w.from) eq)) tr'))

  -- what the walk has seen: different classified values, each further from the source
  pub record IsBehind (n : ℕ) (seen : StrSet) : Type 0 where
    pub distinct : IsDistinct seen
    pub subset : Subset seen st.tainted
    pub further : (k : String) → contains seen k ≡ true → (m : ℕ) × At m k × (n < m)

  pub unseen :
      (n : ℕ) (seen : StrSet) (k : String) → IsBehind n seen → At n k → contains seen k ≡ false
  unseen n seen k b tr = elim (Bool-cases (contains seen k)) [
    | inl s ↦
        let (m, tr', lt) = b.further k s in absurd (omega (arith, lt, distance_unique n m k tr tr'))
    | inr f ↦ f
  ]

  pub insert-IsBehind :
      (n : ℕ) (seen : StrSet) (k : String)
      → IsBehind (suc n) seen
      → At (suc n) k
      → IsBehind n (insert k seen)
  insert-IsBehind n seen k b tr = record {
    distinct = insert-IsDistinct k seen b.distinct;
    subset = λ j h. elim (same-cases k j) [
      | inl eq ↦
          subst (λ w. contains st.tainted w ≡ true) eq
            (Traced-tainted e roots st.tainted st.pred st.chain (suc n) k tr)
      | inr o ↦ b.subset j (ground (arith, contains-insert k seen j))
    ];
    further = λ j h. elim (same-cases k j) [
      | inl eq ↦ (suc n, subst (At (suc n)) eq tr, omega arith)
      | inr o ↦
          let (m, tr', lt) = b.further j (ground (arith, contains-insert k seen j)) in
          (m, tr', omega (arith, lt))
    ];
  }

  -- Each step of the walk sees one more classified value.
  pub room :
      (n : ℕ) (seen : StrSet) (k : String)
      → IsBehind n seen
      → At n k
      → length seen + 1 ≤ length st.tainted
  unfolding contains
  room n seen k b tr =
      let f = unseen n seen k b tr in
      let d : IsDistinct (k ∷ seen) = (f, b.distinct) in
      let s : Subset (k ∷ seen) st.tainted = λ j h. elim (same-cases k j) [
        | inl eq ↦
            subst (λ w. contains st.tainted w ≡ true) eq
              (Traced-tainted e roots st.tainted st.pred st.chain n k tr)
        | inr o ↦ b.subset j (rw (o, contains) at h)
      ] in
      omega (arith, length-le_of_Subset (k ∷ seen) st.tainted d s)
