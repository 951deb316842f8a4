-- ===== src/Taint/Total.antt =====
-- core/internal/taint/taint.go: the propagation from any sources ends, and finds only what hops lead to.
use sast_engine.Prelude.{
  ℕ, ◌+◌, ◌≤◌, String, ◌≡◌, refl, inl, inr, true, some, List, [], ◌∷◌, contains, arith,
  Option-cases, length, each, subst, Memᴰ, each-induction, Memᴰ→contains, map-Memᴰ, ◌*◌, ap, sym,
  ◌∙◌,
}
use sast_engine.Taint.{Engine, State, put}
use sast_engine.Taint.Propagate.{propagate}
use sast_engine.Taint.Leads.{Carried, root, hop}
use sast_engine.Taint.Moves.{mark_tainted-IsKeptLed, carries_record-tainted, mark_tainted-cases}
use sast_engine.Taint.Targets.{targets}
use sast_engine.Taint.Fuel.{
  work, debt, rank, work-mark_tainted-suc, propagate_total_within, debt-fields,
}
use sast_engine.Taint.Round.{IsReady, mark_tainted-Queued, moves-induction}
use sast_engine.Taint.Seeded.{Seed, seed_edge, seed_value, with_fields, new_state, seeded, seed_ids}

-- a claim that no source breaks holds when the propagation starts
pub seeded-induction {ℓ} :
    (e : Engine) (P : State → Type ℓ) (seeds : List Seed)
    → P new_state
    → ((s : Seed) (st : State) → Memᴰ s seeds → P st → P (seed_value e.model s st))
    → P (seeded e seeds)
unfolding seeded
seeded-induction e P seeds start step =
    each-induction P (seed_value e.model) seeds new_state step start

with_fields-tainted : (s : Seed) (st : State) → (with_fields s st).tainted ≡ st.tainted
unfolding with_fields
with_fields-tainted s st = ground arith

with_fields-queue : (s : Seed) (st : State) → (with_fields s st).queue ≡ st.queue
unfolding with_fields
with_fields-queue s st = ground arith

with_fields-work :
    (s : Seed) (st : State) (ks : List String) → work (with_fields s st) ks ≡ work st ks
unfolding with_fields work
with_fields-work s st ks = elim (Option-cases s.fields) [
  | inl n ↦ rw (n, with_fields) refl
  | inr (fs, y) ↦
      rw (y, with_fields) (omega (arith, debt-fields st (put s.id fs st.record_fields) ks))
]

seeds-work :
    (e : Engine) (seeds : List Seed) (st : State) (ks : List String)
    → work (each (seed_value e.model) seeds st) ks ≤ length seeds + work st ks
unfolding each seed_value
seeds-work e [] st ks = omega arith
seeds-work e (s ∷ seeds) st ks = omega (
  arith,
  seeds-work e seeds (seed_value e.model s st) ks,
  work-mark_tainted-suc e.model s.id (seed_edge s) (with_fields s st) ks,
  with_fields-work s st ks,
)

debt-new_state : (ks : List String) → debt new_state ks ≡ 4 * length ks
unfolding debt rank new_state contains
debt-new_state [] = refl
debt-new_state (k ∷ ks) = omega (arith, debt-new_state ks)

with_fields-pred : (s : Seed) (st : State) → (with_fields s st).pred ≡ st.pred
unfolding with_fields
with_fields-pred s st = elim (Option-cases s.fields) [
  | inl n ↦ rw (n, with_fields) refl
  | inr (fs, y) ↦ rw (y, with_fields) refl
]

pub seeded-IsReady : (e : Engine) (seeds : List Seed) → IsReady e (seeded e seeds)
unfolding seed_value new_state contains seed_edge
seeded-IsReady e seeds =
    seeded-induction e (IsReady e) seeds (λ k h. h, λ k ed h. cc)
      λ s st m (q, led). (
        mark_tainted-Queued e.model s.id (seed_edge s) (with_fields s st)
            (λ k h. rw (with_fields-tainted s st) (q k (rw (with_fields-queue s st) at h))),
        mark_tainted-IsKeptLed e s.id (seed_edge s) (with_fields s st) (inl refl)
            λ k ed h. led k ed (ap (λ f. f k) (sym (with_fields-pred s st)) ∙ h),
      )

-- From any sources, the propagation ends within one round for each source and four for each value
-- that a hop can reach.
pub propagate_total :
    (e : Engine) (seeds : List Seed) (fuel : ℕ)
    → length seeds + 4 * length (targets e) ≤ fuel
    → (r : State) × (propagate e fuel (seeded e seeds) ≡ some r)
unfolding seeded work new_state
propagate_total e seeds fuel h =
    propagate_total_within e fuel (seeded e seeds) (seeded-IsReady e seeds)
      (omega (arith, h, seeds-work e seeds new_state (targets e), debt-new_state (targets e)))

-- From any sources, every value that the propagation classifies is led to from a source by hops of the
-- program: flows, bindings of arguments to parameters, results of calls that are not local, completed
-- promises, callbacks, returned values to the calls of their function, and arguments to the results of
-- calls that return what their parameters lead to.
pub propagate_sound :
    (e : Engine) (seeds : List Seed) (fuel : ℕ) (r : State)
    → propagate e fuel (seeded e seeds) ≡ some r
    → (k : String) → contains r.tainted k ≡ true
    → Carried e (seed_ids seeds) k
unfolding seed_value new_state contains
propagate_sound e seeds fuel r h =
    let P : State → Type 0 =
      λ st. (k : String) → contains st.tainted k ≡ true → Carried e (seed_ids seeds) k in
    moves-induction e P (λ st rest p. p)
      (λ st id ed t l p k m. elim (mark_tainted-cases e.model id ed st k m) [
        | inl old ↦ p k old
        | inr eq ↦ subst (Carried e (seed_ids seeds)) eq (hop ed.from id (p ed.from t) l)
      ])
      (λ st from to p k m. p k (rw (carries_record-tainted from to st) at m)) fuel (seeded e seeds)
      r (seeded-IsReady e seeds)
      (seeded-induction e P seeds (λ k m. cc)
        λ s st n p k m.
          elim (mark_tainted-cases e.model s.id (seed_edge s) (with_fields s st) k m) [
            | inl old ↦ p k (rw (with_fields-tainted s st) at old)
            | inr eq ↦ root k (
                subst (λ w. contains (seed_ids seeds) w ≡ true) eq
                  (Memᴰ→contains (seed_ids seeds) s.id (map-Memᴰ (λ (s : Seed). s.id) seeds s n)))
          ])
      h
