-- ===== src/Taint/Round.antt =====
-- core/internal/taint/taint.go: a round of the worklist makes only moves of the program, so that what
-- each move keeps holds when the propagation ends.
use sast_engine.Prelude.{
  ℕ, zero, suc, String, ◌≡◌, inl, inr, true, none, some, List, [], ◌∷◌, contains, each, arith,
  Bool-cases, List-cases, subst, sym, contains-append, contains-head, contains-tail,
  contains-insert,
}
use sast_engine.Taint.{Edge, Engine, State, mark_tainted, keep_path, carries_record, has_record}
use sast_engine.Taint.Rules.{Model}
use sast_engine.Taint.Index.{flows_from, arg_uses, receiver_uses, entry_uses}
use sast_engine.Taint.Propagate.{
  flow_step, through_call, through_destructured_arg, through_receiver, through_return, visit,
  propagate,
}
use sast_engine.Taint.Leads.{Leads}
use sast_engine.Taint.Moves.{
  Moves, stay, marked, renamed, trans, each-Moves, Moves-keeps, IsKeptLed, Moves-IsKeptLed,
}
use sast_engine.Taint.Hops.{flow_step-Moves, through_call-Moves}
use sast_engine.Taint.Visit.{
  through_destructured_arg-Moves, through_receiver-Moves, through_return-Moves,
}

-- the states within a round: after the flows, the arguments, the destructured arguments, the methods
abbrev pub after_flows : Engine → String → State → State
after_flows e id st = each (flow_step e id) (flows_from e.functions id) st

abbrev pub after_calls : Engine → String → State → State
after_calls e id st = each (through_call e id) (arg_uses e.functions id) (after_flows e id st)

abbrev pub after_entries : Engine → String → State → State
after_entries e id st =
    each (through_destructured_arg e id) (entry_uses e.functions id) (after_calls e id st)

abbrev pub after_methods : Engine → String → State → State
after_methods e id st =
    each (through_receiver e id) (receiver_uses e.functions id) (after_entries e id st)

module _ (e : Engine) (id : String) (st : State) (t : contains st.tainted id ≡ true) where
  pub after_flows-Moves : Moves e st (after_flows e id st)
  after_flows-Moves =
      each-Moves e id (flow_step e id) (flows_from e.functions id) st
        (λ f m s t'. flow_step-Moves e id f s m t') t

  pub after_calls-Moves : Moves e (after_flows e id st) (after_calls e id st)
  after_calls-Moves =
      each-Moves e id (through_call e id) (arg_uses e.functions id) (after_flows e id st)
        (λ c m s t'. through_call-Moves e id c s m t')
        (Moves-keeps e st (after_flows e id st) after_flows-Moves id t)

  until_called : Moves e st (after_calls e id st)
  until_called =
      trans e st (after_flows e id st) (after_calls e id st) after_flows-Moves after_calls-Moves

  pub destructured-Moves : Moves e (after_calls e id st) (after_entries e id st)
  destructured-Moves =
      each-Moves e id (through_destructured_arg e id) (entry_uses e.functions id)
        (after_calls e id st) (λ u n s t'. through_destructured_arg-Moves e id u s n t')
        (Moves-keeps e st (after_calls e id st) until_called id t)

  pub after_entries-Moves : Moves e st (after_entries e id st)
  after_entries-Moves =
      trans e st (after_calls e id st) (after_entries e id st) until_called destructured-Moves

  pub after_methods-Moves : Moves e (after_entries e id st) (after_methods e id st)
  after_methods-Moves =
      each-Moves e id (through_receiver e id) (receiver_uses e.functions id) (after_entries e id st)
        (λ c m s t'. through_receiver-Moves e id c s m t')
        (Moves-keeps e st (after_entries e id st) after_entries-Moves id t)

  pub visit-Moves : IsKeptLed e st → Moves e st (visit e id st)
  unfolding visit
  visit-Moves led = elim (Bool-cases (has_record id (after_entries e id st))) [
    | inl row ↦
        rw (row, visit)
          (trans e st (after_entries e id st) (through_return e id (after_entries e id st))
            after_entries-Moves
            (through_return-Moves e id (after_entries e id st)
              (Moves-IsKeptLed e st (after_entries e id st) after_entries-Moves led)
              (Moves-keeps e st (after_entries e id st) after_entries-Moves id t)))
    | inr bare ↦
        let m =
          trans e st (after_entries e id st) (after_methods e id st) after_entries-Moves
            after_methods-Moves in
        rw (bare, visit)
          (trans e st (after_methods e id st) (through_return e id (after_methods e id st)) m (
            through_return-Moves e id (after_methods e id st)
              (Moves-IsKeptLed e st (after_methods e id st) m led)
              (Moves-keeps e st (after_methods e id st) m id t)))
  ]

-- What waits is classified.
abbrev pub Queued : State → Type 0
Queued st = (k : String) → contains st.queue k ≡ true → contains st.tainted k ≡ true

-- a state between two rounds
abbrev pub IsReady : Engine → State → Type 0
IsReady e st = Queued st × IsKeptLed e st

pub mark_tainted-Queued :
    (m : Model) (id : String) (ed : Edge) (st : State)
    → Queued st
    → Queued (mark_tainted m id ed st)
unfolding mark_tainted keep_path contains
mark_tainted-Queued m id ed st q k h =
    ground (arith, q k, contains-append st.queue (id ∷ []) k, contains-insert id st.tainted k)

carries_record-Queued :
    (from to : String) (st : State) → Queued st → Queued (carries_record from to st)
unfolding carries_record
carries_record-Queued from to st q k h = ground (arith, q k)

pop-Queued :
    (st : State) (id : String) (rest : List String)
    → st.queue ≡ id ∷ rest
    → Queued st
    → Queued record st { queue = rest }
pop-Queued st id rest e q k h = q k (rw e (contains-tail id rest k h))

-- what every move keeps
pub Moves-induction {ℓ} :
    (e : Engine) (P : State → Type ℓ)
    → ((st : State) (id : String) (ed : Edge)
        → contains st.tainted ed.from ≡ true
        → Leads e ed.from id
        → P st
        → P (mark_tainted e.model id ed st))
    → ((st : State) (from to : String) → P st → P (carries_record from to st))
    → (st st' : State) → Moves e st st'
    → P st
    → P st'
Moves-induction e P mark carry st _ stay p = p
Moves-induction e P mark carry st _ (marked st' id ed n t l) p =
    mark st' id ed t l (Moves-induction e P mark carry st st' n p)
Moves-induction e P mark carry st _ (renamed st' from to n) p =
    carry st' from to (Moves-induction e P mark carry st st' n p)

pub Moves-Queued : (e : Engine) (st st' : State) → Moves e st st' → Queued st → Queued st'
Moves-Queued e =
    Moves-induction e Queued (λ st id ed t l q. mark_tainted-Queued e.model id ed st q)
      (λ st from to q. carries_record-Queued from to st q)

-- the first value that waits is classified, and stays so when it is taken off
pub popped-tainted :
    (st : State) (id : String) (rest : List String)
    → Queued st
    → st.queue ≡ id ∷ rest
    → contains st.tainted id ≡ true
popped-tainted st id rest q e = q id (rw e (contains-head id rest))

pub round-Moves :
    (e : Engine) (st : State) (id : String) (rest : List String)
    → IsReady e st
    → st.queue ≡ id ∷ rest
    → Moves e record st { queue = rest } (visit e id record st { queue = rest })
round-Moves e st id rest (q, led) h =
    visit-Moves e id record st { queue = rest } (popped-tainted st id rest q h) led

pub round-IsReady :
    (e : Engine) (st : State) (id : String) (rest : List String)
    → IsReady e st
    → st.queue ≡ id ∷ rest
    → IsReady e (visit e id record st { queue = rest })
round-IsReady e st id rest (q, led) h =
    let st' : State = record st { queue = rest } in
    let m = round-Moves e st id rest (q, led) h in
    (
      Moves-Queued e st' (visit e id st') m (pop-Queued st id rest h q),
      Moves-IsKeptLed e st' (visit e id st') m led,
    )

-- what holds when the propagation ends: what every round keeps
pub rounds-induction {ℓ} :
    (e : Engine) (P : State → Type ℓ)
    → ((st : State) (id : String) (rest : List String)
        → IsReady e st
        → st.queue ≡ id ∷ rest
        → P st
        → P (visit e id record st { queue = rest }))
    → (fuel : ℕ) (st r : State) → IsReady e st
    → P st
    → propagate e fuel st ≡ some r
    → P r × (r.queue ≡ [])
unfolding propagate
rounds-induction e P round zero st r q p h = elim (List-cases st.queue) [
  | inl nothing ↦
      let eq : some st ≡ some r = rw (nothing, propagate) at h in
      let eq' : st ≡ r = cc in (subst P eq' p, rw (sym eq') nothing)
  | inr (id, rest, waits) ↦ let bad : none ≡ some r = rw (waits, propagate) at h in cc
]
rounds-induction e P round (suc fuel) st r q p h = elim (List-cases st.queue) [
  | inl nothing ↦
      let eq : some st ≡ some r = rw (nothing, propagate) at h in
      let eq' : st ≡ r = cc in (subst P eq' p, rw (sym eq') nothing)
  | inr (id, rest, waits) ↦
      rounds-induction e P round fuel (visit e id record st { queue = rest }) r
        (round-IsReady e st id rest q waits) (round st id rest q waits p)
        (rw (waits, propagate) at h)
]

-- the same from what every move keeps
pub moves-induction {ℓ} :
    (e : Engine) (P : State → Type ℓ)
    → ((st : State) (rest : List String) → P st → P record st { queue = rest })
    → ((st : State) (id : String) (ed : Edge)
        → contains st.tainted ed.from ≡ true
        → Leads e ed.from id
        → P st
        → P (mark_tainted e.model id ed st))
    → ((st : State) (from to : String) → P st → P (carries_record from to st))
    → (fuel : ℕ) (st r : State) → IsReady e st
    → P st
    → propagate e fuel st ≡ some r
    → P r
moves-induction e P pop mark carry fuel st r q p h =
    (rounds-induction e P
      (λ s id rest qs w ps.
        let s' : State = record s { queue = rest } in
        Moves-induction e P mark carry s' (visit e id s') (round-Moves e s id rest qs w)
          (pop s rest ps))
      fuel st r q p h).0
