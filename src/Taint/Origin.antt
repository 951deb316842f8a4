-- ===== src/Taint/Origin.antt =====
-- core/internal/taint/taint.go: the evidence for a classified value (tracePath, originOf) leads back
-- to a source.
use sast_engine.Prelude.{
  ℕ, zero, suc, ◌+◌, ◌<◌, String, ◌≡◌, refl, inl, inr, true, false, ◌||◌, some, List, [], ◌∷◌, ◌++◌,
  contains, StrSet, same, same_iff, same_self, arith, Bool-cases, insert, length, sym, ap, ◌∙◌,
  contains-head,
}
use mathlib.Core.List.{append_assoc, append-nil}
use sast_engine.Taint.{Engine, State}
use sast_engine.Taint.Leads.{Carried, root, hop}
use sast_engine.Taint.Chain.{IsTraced, source, after}
use sast_engine.Taint.Path.{Hop, hop_of, trace_within, trace_path, origin_within, origin_of}
use sast_engine.Taint.Propagate.{propagate}
use sast_engine.Taint.Seeded.{Seed, seeded, seed_ids}
use sast_engine.Taint.Traced.{propagate-IsTraced}
use sast_engine.Taint.Evidence.{
  Kept, start, extend, At, nameless, IsBehind, unseen, insert-IsBehind, room,
}

module _ (e : Engine) (roots : List String) (st : State) (i : IsTraced e roots st) where
  named_tainted : (n : ℕ) (k : String) → At e roots st i n k → same k "" ≡ false
  named_tainted n k tr = elim (Bool-cases (same k "")) [
    | inl eq ↦ absurd (nameless e roots st i n k ((same_iff k "").0 eq) tr)
    | inr f ↦ f
  ]

  -- neither test ends the walk at a value of the path
  goes_on :
      (n : ℕ) (seen : StrSet) (k : String)
      → IsBehind e roots st i n seen
      → At e roots st i n k
      → (same k "" || contains seen k) ≡ false
  goes_on n seen k b tr = ground (arith, named_tainted n k tr, unseen e roots st i n seen k b tr)

  length-seen :
      (n : ℕ) (seen : StrSet) (k : String)
      → IsBehind e roots st i n seen
      → At e roots st i n k
      → length (insert k seen) ≡ suc (length seen)
  unfolding insert
  length-seen n seen k b tr = rw (unseen e roots st i n seen k b tr) refl

  trace_within-stop :
      (fuel : ℕ) (seen : StrSet) (o : String) (path : List Hop)
      → trace_within (suc fuel) st seen "" o path ≡ some (path, o)
  unfolding trace_within
  trace_within-stop fuel seen o path = rw (same_self "", trace_within) refl

  -- The walk goes back to a source, and prepends the hops to what it has.
  trace_within_lem :
      (fuel : ℕ) (seen : StrSet) (k origin : String) (path : List Hop) (n : ℕ)
      → At e roots st i n k
      → IsBehind e roots st i n seen
      → length st.tainted < length seen + fuel
      → (front : List Hop) × (o : String) × (trace_within fuel st seen k origin path
          ≡ some (front ++ path, o))
        × (contains roots o ≡ true)
        × Kept e roots st.pred front o k
  unfolding trace_within
  trace_within_lem zero seen k origin path n tr b h =
      absurd (omega (arith, h, room e roots st i n seen k b tr))
  trace_within_lem (suc zero) seen k origin path _ (source _ ed t p f r) b h =
      absurd (omega (arith, h, room e roots st i 0 seen k b (source k ed t p f r)))
  trace_within_lem (suc (suc fuel)) seen k origin path _ (source _ ed t p f r) b h = (
    hop_of ed ∷ [],
    k,
    rw (goes_on 0 seen k b (source k ed t p f r), p, trace_within)
        (ap (λ w. trace_within (suc fuel) st (insert k seen) w k (hop_of ed ∷ path)) f
          ∙ trace_within-stop fuel (insert k seen) k (hop_of ed ∷ path)),
    r,
    start k ed p f r,
  )
  trace_within_lem (suc fuel) seen k origin path _ (after n _ ed t p c l tr) b h =
      let tr' = after n k ed t p c l tr in
      let (front, o, eq, ro, kept) =
        trace_within_lem fuel (insert k seen) ed.from k (hop_of ed ∷ path) n tr
          (insert-IsBehind e roots st i n seen k b tr')
          (omega (arith, h, length-seen (suc n) seen k b tr')) in
      (
        front ++ hop_of ed ∷ [],
        o,
        rw (goes_on (suc n) seen k b tr', p, trace_within)
            (eq ∙ ap (λ w. some (w, o)) (sym (append_assoc front (hop_of ed ∷ []) path))),
        ro,
        extend front o k ed kept p l,
      )

  nil-IsBehind : (n : ℕ) → IsBehind e roots st i n []
  unfolding contains
  nil-IsBehind n = record { distinct = tt; subset = λ j h. cc; further = λ j h. cc }

  origin_within_lem :
      (fuel : ℕ) (seen : StrSet) (k : String) (n : ℕ)
      → At e roots st i n k
      → IsBehind e roots st i n seen
      → length st.tainted < length seen + fuel
      → (o : String) × (origin_within fuel st roots seen k ≡ some o)
        × (contains roots o ≡ true)
        × Carried e (o ∷ []) k
  unfolding origin_within
  origin_within_lem zero seen k n tr b h =
      absurd (omega (arith, h, room e roots st i n seen k b tr))
  origin_within_lem (suc fuel) seen k _ (source _ ed t p f r) b h = (
    k,
    rw (goes_on 0 seen k b (source k ed t p f r), r, origin_within) refl,
    r,
    root k (contains-head k []),
  )
  origin_within_lem (suc fuel) seen k _ (after n _ ed t p c l tr) b h =
      let tr' = after n k ed t p c l tr in
      elim (Bool-cases (contains roots k)) [
        | inl r ↦ (
          k,
          rw (goes_on (suc n) seen k b tr', r, origin_within) refl,
          r,
          root k (contains-head k []),
        )
        | inr inner ↦
            let (o, eq, ro, w) =
              origin_within_lem fuel (insert k seen) ed.from n tr
                (insert-IsBehind e roots st i n seen k b tr')
                (omega (arith, h, length-seen (suc n) seen k b tr')) in
            (
              o,
              rw (goes_on (suc n) seen k b tr', inner, p, origin_within) eq,
              ro,
              hop ed.from k w l,
            )
      ]

module _ (e : Engine) (seeds : List Seed) (fuel : ℕ) (r : State)
    (done : propagate e fuel (seeded e seeds) ≡ some r) (k : String)
    (t : contains r.tainted k ≡ true) where
  -- tracePath answers, for each classified value, with the hops of the kept edges from a source to it.
  pub trace_path_total :
      (path : List Hop) × (o : String) × (trace_path r k ≡ some (path, o))
      × (contains (seed_ids seeds) o ≡ true)
      × Kept e (seed_ids seeds) r.pred path o k
  unfolding trace_path
  trace_path_total =
      let i = propagate-IsTraced e seeds fuel r done in
      let (n, tr) = i.traced k t in
      let (front, o, eq, ro, kept) =
        trace_within_lem e (seed_ids seeds) r i (suc (length r.tainted)) [] k k [] n tr
          (nil-IsBehind e (seed_ids seeds) r i n) (omega arith) in
      (front, o, eq ∙ ap (λ w. some (w, o)) (append-nil front), ro, kept)

  -- originOf answers, for each classified value, with a source from which hops lead to it.
  pub origin_of_total :
      (o : String) × (origin_of r (seed_ids seeds) k ≡ some o)
      × (contains (seed_ids seeds) o ≡ true)
      × Carried e (o ∷ []) k
  unfolding origin_of
  origin_of_total =
      let i = propagate-IsTraced e seeds fuel r done in
      let (n, tr) = i.traced k t in
      origin_within_lem e (seed_ids seeds) r i (suc (length r.tainted)) [] k n tr
        (nil-IsBehind e (seed_ids seeds) r i n) (omega arith)
