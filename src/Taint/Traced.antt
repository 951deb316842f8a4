-- ===== src/Taint/Traced.antt =====
-- core/internal/taint/taint.go: when the propagation ends, the kept paths lead back to the sources.
use sast_engine.Prelude.{
  ℕ, String, ◌≡◌, refl, not, ◌&&◌, some, inl, inr, List, contains, Bool-cases, Option-cases,
  Memᴰ→contains, map-Memᴰ,
}
use sast_engine.Taint.{Engine, State, carries_record, has_record}
use sast_engine.Taint.Propagate.{propagate}
use sast_engine.Taint.Chain.{IsTraced, hop-IsTraced, source-IsTraced}
use sast_engine.Taint.Round.{moves-induction}
use sast_engine.Taint.Seeded.{Seed, seed_edge, with_fields, seed_value, new_state, seeded, seed_ids}
use sast_engine.Taint.Total.{seeded-induction, seeded-IsReady}

module _ (e : Engine) where
  carries_record-IsTraced :
      (roots : List String) (st : State) (from to : String)
      → IsTraced e roots st
      → IsTraced e roots (carries_record from to st)
  unfolding carries_record
  carries_record-IsTraced roots st from to i =
      elim (Bool-cases (has_record from st && not (has_record to st))) [
        | inl go ↦
            rw (go, carries_record) record { named = i.named; scored = i.scored; traced = i.traced }
        | inr stop ↦ rw (stop, carries_record) i
      ]

  with_fields-IsTraced :
      (roots : List String) (s : Seed) (st : State)
      → IsTraced e roots st
      → IsTraced e roots (with_fields s st)
  unfolding with_fields
  with_fields-IsTraced roots s st i = elim (Option-cases s.fields) [
    | inl n ↦ rw (n, with_fields) i
    | inr (fs, y) ↦
        rw (y, with_fields) record { named = i.named; scored = i.scored; traced = i.traced }
  ]

  new_state-IsTraced : (roots : List String) → IsTraced e roots new_state
  unfolding new_state contains
  new_state-IsTraced roots = record { named = refl; scored = λ k t. cc; traced = λ k t. cc }

  seeded-IsTraced : (seeds : List Seed) → IsTraced e (seed_ids seeds) (seeded e seeds)
  unfolding seed_value seed_edge
  seeded-IsTraced seeds =
      seeded-induction e (IsTraced e (seed_ids seeds)) seeds (new_state-IsTraced (seed_ids seeds))
        λ s st m i.
          source-IsTraced e (seed_ids seeds) e.model s.id (seed_edge s) (with_fields s st) refl
            (Memᴰ→contains (seed_ids seeds) s.id (map-Memᴰ (λ (s : Seed). s.id) seeds s m))
            (with_fields-IsTraced (seed_ids seeds) s st i)

  -- When the propagation ends, each classified value has a kept path back to a source, over hops of the
  -- program between classified values along which the score does not fall.
  pub propagate-IsTraced :
      (seeds : List Seed) (fuel : ℕ) (r : State)
      → propagate e fuel (seeded e seeds) ≡ some r
      → IsTraced e (seed_ids seeds) r
  propagate-IsTraced seeds fuel r h =
      moves-induction e (IsTraced e (seed_ids seeds))
        (λ st rest i. record { named = i.named; scored = i.scored; traced = i.traced })
        (λ st id ed t l i. hop-IsTraced e (seed_ids seeds) e.model id ed st t l i)
        (λ st from to i. carries_record-IsTraced (seed_ids seeds) st from to i) fuel
        (seeded e seeds) r (seeded-IsReady e seeds) (seeded-IsTraced seeds) h
