-- ===== src/Taint/Moves.antt =====
-- core/internal/taint/taint.go: the changes of state that a round can make, as a relation. A round
-- marks a value over a hop from a value that is classified, or passes a record handle on.
use sast_engine.Prelude.{
  String, ◌≡◌, refl, List, [], ◌∷◌, contains, contains-insert, Memᴰ, each, arith, same-cases, ◌⊎◌,
  inl, inr, some, Bool-cases, same, same_iff, subst, some-injective, sym, ap, ◌∙◌, not, ◌&&◌, true,
}
use sast_engine.Taint.{
  Edge, Engine, State, mark_tainted, keep_path, carries_record, put, is_settled, has_record,
}
use sast_engine.Taint.Rules.{Model}
use sast_engine.Taint.Leads.{Leads}

pub data Moves (e : Engine) (st : State) : State → Type 0 where
  stay : Moves e st st
  marked :
      (st' : State) (id : String) (ed : Edge)
      → Moves e st st'
      → contains st'.tainted ed.from ≡ true
      → Leads e ed.from id
      → Moves e st (mark_tainted e.model id ed st')
  renamed :
      (st' : State) (from to : String) → Moves e st st' → Moves e st (carries_record from to st')

pub trans : (e : Engine) (st mid st' : State) → Moves e st mid → Moves e mid st' → Moves e st st'
trans e st mid _ m stay = m
trans e st mid _ m (marked st' id ed n t l) = marked st' id ed (trans e st mid st' m n) t l
trans e st mid _ m (renamed st' from to n) = renamed st' from to (trans e st mid st' m n)

-- A value stays classified.
pub mark_tainted-keeps :
    (m : Model) (id : String) (ed : Edge) (st : State) (k : String)
    → contains st.tainted k ≡ true
    → contains (mark_tainted m id ed st).tainted k ≡ true
unfolding mark_tainted keep_path
mark_tainted-keeps m id ed st k h = ground (arith, contains-insert id st.tainted k)

-- What is classified after a mark was so before, or is the value that is marked.
pub mark_tainted-cases :
    (m : Model) (id : String) (ed : Edge) (st : State) (k : String)
    → contains (mark_tainted m id ed st).tainted k ≡ true
    → (contains st.tainted k ≡ true) ⊎ (id ≡ k)
unfolding mark_tainted keep_path
mark_tainted-cases m id ed st k h = elim (same-cases id k) [
  | inl e ↦ inr e
  | inr n ↦ inl (ground (arith, contains-insert id st.tainted k))
]

pub carries_record-tainted :
    (from to : String) (st : State) → (carries_record from to st).tainted ≡ st.tainted
unfolding carries_record
carries_record-tainted from to st = ground arith

pub Moves-keeps :
    (e : Engine) (st st' : State)
    → Moves e st st'
    → (k : String) → contains st.tainted k ≡ true
    → contains st'.tainted k ≡ true
Moves-keeps e st _ stay k h = h
Moves-keeps e st _ (marked st' id ed n t l) k h =
    mark_tainted-keeps e.model id ed st' k (Moves-keeps e st st' n k h)
Moves-keeps e st _ (renamed st' from to n) k h =
    rw (carries_record-tainted from to st') (Moves-keeps e st st' n k h)

-- the moves of a loop over a list, from those of its body
pub each-Moves {ℓ} :
    {A : Type ℓ} (e : Engine) (id : String) (step : A → State → State) (xs : List A) (st : State)
    → ((x : A) → Memᴰ x xs → (s : State) → contains s.tainted id ≡ true → Moves e s (step x s))
    → contains st.tainted id ≡ true
    → Moves e st (each step xs st)
unfolding each
each-Moves e id step [] st h t = stay
each-Moves e id step (x ∷ xs) st h t =
    let first = h x (Memᴰ.head refl) st t in
    trans e st (step x st) (each step xs (step x st)) first (
      each-Moves e id step xs (step x st) (λ y m. h y (Memᴰ.tail m))
        (Moves-keeps e st (step x st) first id t))

-- Each kept edge comes from a source or is a hop of the program.
abbrev pub IsKeptLed : Engine → State → Type 0
IsKeptLed e st = (k : String) (ed : Edge) → st.pred k ≡ some ed → (ed.from ≡ "") ⊎ Leads e ed.from k

pub mark_tainted-IsKeptLed :
    (e : Engine) (id : String) (ed : Edge) (st : State)
    → (ed.from ≡ "") ⊎ Leads e ed.from id
    → IsKeptLed e st
    → IsKeptLed e (mark_tainted e.model id ed st)
unfolding mark_tainted keep_path put
mark_tainted-IsKeptLed e id ed st l p k ed' h = elim (Bool-cases (is_settled e.model id ed st)) [
  | inl settled ↦ p k ed' (rw settled at h)
  | inr new ↦ elim (same-cases id k) [
    | inr other ↦ p k ed' (rw (new, other, put) at h)
    | inl eq ↦
        let it : same id k ≡ true = (same_iff id k).1 eq in
        let h' : some ed ≡ some ed' = rw (new, it, put) at h in
        subst (λ (d : Edge). (d.from ≡ "") ⊎ Leads e d.from k) (some-injective ed ed' h')
          (subst (λ w. (ed.from ≡ "") ⊎ Leads e ed.from w) eq l)
  ]
]

pub carries_record-pred :
    (from to : String) (st : State) → (carries_record from to st).pred ≡ st.pred
unfolding carries_record
carries_record-pred from to st = elim (Bool-cases (has_record from st && not (has_record to st))) [
  | inl y ↦ rw (y, carries_record) refl
  | inr n ↦ rw (n, carries_record) refl
]

pub Moves-IsKeptLed :
    (e : Engine) (st st' : State) → Moves e st st' → IsKeptLed e st → IsKeptLed e st'
Moves-IsKeptLed e st _ stay p = p
Moves-IsKeptLed e st _ (marked st' id ed n t l) p =
    mark_tainted-IsKeptLed e id ed st' (inr l) (Moves-IsKeptLed e st st' n p)
Moves-IsKeptLed e st _ (renamed st' from to n) p = λ k ed h.
    Moves-IsKeptLed e st st' n p k ed (ap (λ f. f k) (sym (carries_record-pred from to st')) ∙ h)
