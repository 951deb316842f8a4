-- ===== src/Taint/Chain.antt =====
-- core/internal/taint/taint.go: the path that is kept for each value (pred, chain, viaTransform,
-- viaConverter) leads back to a source, and its scores do not fall along it.
use sast_engine.Prelude.{
  ℕ, zero, suc, ◌≤◌, String, ◌≡◌, refl, inl, inr, true, false, Option, some, List, contains, same,
  StrSet, same_iff, same_self, arith, Bool-cases, same-cases, contains-insert, subst, ◌∙◌,
}
use sast_engine.Taint.{
  Edge, Engine, State, put, chain_score, is_settled, keep_path, mark_tainted, edge_score, edge_via,
  edge_converter,
}
use sast_engine.Taint.Rules.{Model}
use sast_engine.Taint.Leads.{Leads}

-- The path that `pred` keeps for a value goes back to one of the sources over so many hops, each a hop
-- of the program from a classified value whose score is no greater.
pub data Traced (e : Engine) (roots : List String) (tainted : StrSet) (pred : String → Option Edge)
    (chain : String → ℕ) : ℕ → String → Type 0 where
  source :
      (k : String) (ed : Edge)
      → contains tainted k ≡ true
      → pred k ≡ some ed
      → ed.from ≡ ""
      → contains roots k ≡ true
      → Traced e roots tainted pred chain zero k
  after :
      (n : ℕ) (k : String) (ed : Edge)
      → contains tainted k ≡ true
      → pred k ≡ some ed
      → chain ed.from ≤ chain k
      → Leads e ed.from k
      → Traced e roots tainted pred chain n ed.from
      → Traced e roots tainted pred chain (suc n) k

-- what the propagation keeps of its maps
pub record IsTraced (e : Engine) (roots : List String) (st : State) : Type 0 where
  pub named : contains st.tainted "" ≡ false
  pub scored :
      (k : String)
      → contains st.tainted k ≡ true
      → st.chain k ≡ chain_score (st.via_converter k) (st.via_transform k)
  pub traced :
      (k : String)
      → contains st.tainted k ≡ true
      → (n : ℕ) × Traced e roots st.tainted st.pred st.chain n k

module _ (e : Engine) (roots : List String) where
  pub Traced-tainted :
      (tainted : StrSet) (pred : String → Option Edge) (chain : String → ℕ) (n : ℕ) (k : String)
      → Traced e roots tainted pred chain n k
      → contains tainted k ≡ true
  Traced-tainted tainted pred chain _ k (source _ ed t p f r) = t
  Traced-tainted tainted pred chain _ k (after n _ ed t p c l h) = t

  -- An edge makes a path that scores no less than the path it extends.
  edge_score-ge :
      (m : Model) (ed : Edge) (st : State)
      → IsTraced e roots st
      → contains st.tainted ed.from ≡ true
      → st.chain ed.from ≤ edge_score m ed st
  unfolding edge_score edge_via edge_converter chain_score
  edge_score-ge m ed st i t = ground (arith, i.scored ed.from t)

  module _ (m : Model) (id : String) (ed : Edge) (st : State)
      (n : is_settled m id ed st ≡ false) where
    abbrev new : State
    new = keep_path m id ed st

    -- A classified value that scores no more than the new path is another value.
    differs :
        (k : String)
        → contains st.tainted k ≡ true
        → st.chain k ≤ edge_score m ed st
        → same id k ≡ false
    unfolding is_settled
    differs k t h = ground (arith, n, same_iff id k)

    chain-le : (k : String) → contains st.tainted k ≡ true → new.chain k ≤ st.chain k
    unfolding keep_path put is_settled
    chain-le k t = ground (arith, n, same_iff id k)

    kept : (k : String) → contains st.tainted k ≡ true → contains new.tainted k ≡ true
    unfolding keep_path
    kept k t = ground (arith, contains-insert id st.tainted k)

    chain-other : (k : String) → same id k ≡ false → new.chain k ≡ st.chain k
    unfolding keep_path put
    chain-other k d = rw d refl

    pred-other : (k : String) → same id k ≡ false → new.pred k ≡ st.pred k
    unfolding keep_path put
    pred-other k d = rw d refl

    -- A path that scores no more than the new one does not come by the marked value.
    Traced-below :
        (d : ℕ) (k : String)
        → Traced e roots st.tainted st.pred st.chain d k
        → st.chain k ≤ edge_score m ed st
        → Traced e roots new.tainted new.pred new.chain d k
    Traced-below _ k (source _ ed' t p f r) h =
        let o = differs k t h in source k ed' (kept k t) (pred-other k o ∙ p) f r
    Traced-below _ k (after d _ ed' t p c l tr) h =
        let o = differs k t h in
        let t' = Traced-tainted st.tainted st.pred st.chain d ed'.from tr in
        let h' : st.chain ed'.from ≤ edge_score m ed st = omega (arith, c, h) in
        let o' = differs ed'.from t' h' in
        after d k ed' (kept k t) (pred-other k o ∙ p)
          (omega (arith, chain-other k o, chain-other ed'.from o', c)) l
          (Traced-below d ed'.from tr h')

    -- The other paths are changed only where they come by the marked value.
    Traced-rest :
        (d₀ : ℕ)
        → Traced e roots new.tainted new.pred new.chain d₀ id
        → (d : ℕ) (k : String) → Traced e roots st.tainted st.pred st.chain d k
        → (d' : ℕ) × Traced e roots new.tainted new.pred new.chain d' k
    Traced-rest d₀ new_path _ k (source _ ed' t p f r) = elim (same-cases id k) [
      | inl eq ↦ (d₀, subst (Traced e roots new.tainted new.pred new.chain d₀) eq new_path)
      | inr o ↦ (0, source k ed' (kept k t) (pred-other k o ∙ p) f r)
    ]
    Traced-rest d₀ new_path _ k (after d _ ed' t p c l tr) = elim (same-cases id k) [
      | inl eq ↦ (d₀, subst (Traced e roots new.tainted new.pred new.chain d₀) eq new_path)
      | inr o ↦
          let (d', tr') = Traced-rest d₀ new_path d ed'.from tr in
          let t' = Traced-tainted st.tainted st.pred st.chain d ed'.from tr in
          (
            suc d',
            after d' k ed' (kept k t) (pred-other k o ∙ p)
                (omega (arith, chain-other k o, chain-le ed'.from t', c)) l tr',
          )
    ]

    tainted-new : contains new.tainted id ≡ true
    unfolding keep_path
    tainted-new = ground (arith, contains-insert id st.tainted id, same_self id)

    pred-new : new.pred id ≡ some ed
    unfolding keep_path put
    pred-new = rw (same_self id) refl

    chain-new : new.chain id ≡ edge_score m ed st
    unfolding keep_path put
    chain-new = rw (same_self id) refl

    -- the new path over a hop
    path-after :
        (d : ℕ)
        → IsTraced e roots st
        → Leads e ed.from id
        → Traced e roots st.tainted st.pred st.chain d ed.from
        → Traced e roots new.tainted new.pred new.chain (suc d) id
    path-after d i l tr =
        let t = Traced-tainted st.tainted st.pred st.chain d ed.from tr in
        let h = edge_score-ge m ed st i t in
        after d id ed tainted-new pred-new
          (omega (arith, h, chain-new, chain-other ed.from (differs ed.from t h))) l
          (Traced-below d ed.from tr h)

    -- With the new path traced, so are all.
    pub keep_path-IsTraced :
        IsTraced e roots st
        → (d : ℕ) → Traced e roots new.tainted new.pred new.chain d id
        → IsTraced e roots new
    unfolding keep_path put is_settled edge_score
    keep_path-IsTraced i d new_path = record {
      named = ground (arith, i.named, n, same_iff id "", contains-insert id st.tainted "");
      scored = λ k t. ground (arith, i.scored k, same_iff id k, contains-insert id st.tainted k);
      traced = λ k t. elim (same-cases id k) [
        | inl eq ↦ (d, subst (Traced e roots new.tainted new.pred new.chain d) eq new_path)
        | inr o ↦
            let (d', tr) = i.traced k (ground (arith, contains-insert id st.tainted k)) in
            Traced-rest d new_path d' k tr
      ];
    }

  -- A mark over a hop, and a mark of a source, keep the paths.
  pub hop-IsTraced :
      (m : Model) (id : String) (ed : Edge) (st : State)
      → contains st.tainted ed.from ≡ true
      → Leads e ed.from id
      → IsTraced e roots st
      → IsTraced e roots (mark_tainted m id ed st)
  unfolding mark_tainted
  hop-IsTraced m id ed st t l i = elim (Bool-cases (is_settled m id ed st)) [
    | inl settled ↦ rw (settled, mark_tainted) i
    | inr n ↦
        let (d, tr) = i.traced ed.from t in
        rw (n, mark_tainted)
          (keep_path-IsTraced m id ed st n i (suc d) (path-after m id ed st n d i l tr))
  ]

  pub source-IsTraced :
      (m : Model) (id : String) (ed : Edge) (st : State)
      → ed.from ≡ ""
      → contains roots id ≡ true
      → IsTraced e roots st
      → IsTraced e roots (mark_tainted m id ed st)
  unfolding mark_tainted
  source-IsTraced m id ed st f r i = elim (Bool-cases (is_settled m id ed st)) [
    | inl settled ↦ rw (settled, mark_tainted) i
    | inr n ↦
        rw (n, mark_tainted)
          (keep_path-IsTraced m id ed st n i 0
            (source id ed (tainted-new m id ed st n) (pred-new m id ed st n) f r))
  ]
