-- ===== src/Taint/Fuel.antt =====
-- core/internal/taint/taint.go: the propagation ends. A value is put on the queue when it is first
-- classified, and after that only when the score of its path falls, so at most four times.
use sast_engine.Prelude.{
  ℕ, zero, suc, ◌+◌, ◌≤◌, ◌<◌, String, ◌≡◌, refl, inl, inr, Bool, true, false, some, List, [], ◌∷◌,
  contains, same_iff, same_self, arith, Bool-cases, List-cases, same-cases, contains-insert, length,
  length-append, if◌then◌else◌, Memᴰ→contains, ap,
}
use sast_engine.Taint.{
  Edge, Engine, State, mark_tainted, carries_record, put, chain_score, is_settled, keep_path,
  edge_score, edge_via, edge_converter,
}
use sast_engine.Taint.Rules.{Model}
use sast_engine.Taint.Propagate.{visit, propagate}
use sast_engine.Taint.Moves.{Moves}
use sast_engine.Taint.Targets.{targets, Leads→targets}
use sast_engine.Taint.Round.{IsReady, round-Moves, round-IsReady, Moves-induction}

pub chain_score-le : (converter : String) (via : Bool) → chain_score converter via ≤ 3
unfolding chain_score
chain_score-le converter via = ground arith

-- the score that a value can still lose, with one more for its first mark
unfoldable pub rank : State → String → ℕ
rank st k = if contains st.tainted k then st.chain k else 4

unfoldable pub debt : State → List String → ℕ
debt st [] = 0
debt st (k ∷ ks) = rank st k + debt st ks

length-keep_path :
    (m : Model) (id : String) (ed : Edge) (st : State)
    → length (keep_path m id ed st).queue ≡ suc (length st.queue)
unfolding keep_path
length-keep_path m id ed st = omega (arith, length-append st.queue (id ∷ []))

rank-carries_record :
    (from to : String) (st : State) (k : String) → rank (carries_record from to st) k ≡ rank st k
unfolding rank carries_record
rank-carries_record from to st k = ground arith

debt-popped : (st : State) (rest ks : List String) → debt record st { queue = rest } ks ≡ debt st ks
unfolding debt rank
debt-popped st rest [] = refl
debt-popped st rest (k ∷ ks) = ap (λ n. rank st k + n) (debt-popped st rest ks)

pub debt-fields :
    (st : State) (fields : String → List String) (ks : List String)
    → debt record st { record_fields = fields } ks ≡ debt st ks
unfolding debt rank
debt-fields st fields [] = refl
debt-fields st fields (k ∷ ks) = ap (λ n. rank st k + n) (debt-fields st fields ks)

rank-keep_path-le :
    (m : Model) (id : String) (ed : Edge) (st : State) (k : String)
    → is_settled m id ed st ≡ false
    → rank (keep_path m id ed st) k ≤ rank st k
unfolding rank keep_path put is_settled edge_score
rank-keep_path-le m id ed st k n = ground (
  arith,
  contains-insert id st.tainted k,
  same_iff id k,
  chain_score-le (edge_converter ed st) (edge_via m ed st),
)

rank-keep_path-lt :
    (m : Model) (id : String) (ed : Edge) (st : State)
    → is_settled m id ed st ≡ false
    → rank (keep_path m id ed st) id < rank st id
unfolding rank keep_path put is_settled edge_score
rank-keep_path-lt m id ed st n = ground (
  arith,
  contains-insert id st.tainted id,
  same_self id,
  chain_score-le (edge_converter ed st) (edge_via m ed st),
)

debt-keep_path-le :
    (m : Model) (id : String) (ed : Edge) (st : State) (ks : List String)
    → is_settled m id ed st ≡ false
    → debt (keep_path m id ed st) ks ≤ debt st ks
unfolding debt
debt-keep_path-le m id ed st [] n = omega arith
debt-keep_path-le m id ed st (k ∷ ks) n =
    omega (arith, rank-keep_path-le m id ed st k n, debt-keep_path-le m id ed st ks n)

debt-keep_path-lt :
    (m : Model) (id : String) (ed : Edge) (st : State) (ks : List String)
    → is_settled m id ed st ≡ false
    → contains ks id ≡ true
    → debt (keep_path m id ed st) ks < debt st ks
unfolding debt contains
debt-keep_path-lt m id ed st [] n h = cc
debt-keep_path-lt m id ed st (k ∷ ks) n h = elim (same-cases k id) [
  | inl e ↦ rw e (omega (arith, rank-keep_path-lt m id ed st n, debt-keep_path-le m id ed st ks n))
  | inr other ↦ omega (
    arith,
    rank-keep_path-le m id ed st k n,
    debt-keep_path-lt m id ed st ks n (rw (other, contains) at h),
  )
]

-- what is left to do: the rounds that wait, and those that later marks can add
unfoldable pub work : State → List String → ℕ
work st ks = length st.queue + debt st ks

-- A mark adds no more work than it takes away, if its value is listed, and one round at most if not.
pub work-mark_tainted :
    (m : Model) (id : String) (ed : Edge) (st : State) (ks : List String)
    → contains ks id ≡ true
    → work (mark_tainted m id ed st) ks ≤ work st ks
unfolding work mark_tainted
work-mark_tainted m id ed st ks h = elim (Bool-cases (is_settled m id ed st)) [
  | inl settled ↦ rw settled (omega arith)
  | inr n ↦ rw n (omega (arith, debt-keep_path-lt m id ed st ks n h, length-keep_path m id ed st))
]

pub work-mark_tainted-suc :
    (m : Model) (id : String) (ed : Edge) (st : State) (ks : List String)
    → work (mark_tainted m id ed st) ks ≤ suc (work st ks)
unfolding work mark_tainted
work-mark_tainted-suc m id ed st ks = elim (Bool-cases (is_settled m id ed st)) [
  | inl settled ↦ rw settled (omega arith)
  | inr n ↦ rw n (omega (arith, debt-keep_path-le m id ed st ks n, length-keep_path m id ed st))
]

pub work-carries_record :
    (from to : String) (st : State) (ks : List String)
    → work (carries_record from to st) ks ≡ work st ks
unfolding work carries_record debt
work-carries_record from to st [] = ground arith
work-carries_record from to st (k ∷ ks) =
    ground (arith, rank-carries_record from to st k, work-carries_record from to st ks)

module _ (e : Engine) where
  Moves-work : (st st' : State) → Moves e st st' → work st' (targets e) ≤ work st (targets e)
  Moves-work st st' n =
      Moves-induction e (λ s. work s (targets e) ≤ work st (targets e))
        (λ s id ed t l h. omega (
          arith,
          h,
          work-mark_tainted e.model id ed s (targets e)
              (Memᴰ→contains (targets e) id (Leads→targets e ed.from id l)),
        ))
        (λ s from to h. omega (arith, h, work-carries_record from to s (targets e))) st st' n
        (omega arith)

  -- With fuel for the work that is left, the propagation ends.
  pub propagate_total_within :
      (fuel : ℕ) (st : State)
      → IsReady e st
      → work st (targets e) ≤ fuel
      → (r : State) × (propagate e fuel st ≡ some r)
  unfolding propagate work
  propagate_total_within zero st q h = elim (List-cases st.queue) [
    | inl nothing ↦ (st, ground arith)
    | inr (id, rest, waits) ↦ absurd (omega (arith, h, ap length waits))
  ]
  propagate_total_within (suc fuel) st q h = elim (List-cases st.queue) [
    | inl nothing ↦ (st, ground arith)
    | inr (id, rest, waits) ↦
        let st' : State = record st { queue = rest } in
        let n = round-Moves e st id rest q waits in
        let (r, eq) =
          propagate_total_within fuel (visit e id st') (round-IsReady e st id rest q waits) (
            omega (
              arith,
              h,
              Moves-work st' (visit e id st') n,
              ap length waits,
              debt-popped st rest (targets e),
            )) in
        (r, rw (waits, propagate) eq)
  ]
