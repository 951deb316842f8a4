-- ===== src/Taint/Closed.antt =====
-- core/internal/taint/taint.go: where no source is a row of a store, the propagation misses no flow, no
-- argument that a parameter takes whole, and no result of a call or a method that is not local.
use sast_engine.Prelude.{
  String, ◌≡◌, refl, inl, inr, true, false, none, some, List, [], ◌∷◌, contains, same, same_iff,
  arith, contains-insert, Memᴰ, each, sym, subst,
}
use mathlib.Core.List.Memᴰ.{cases_cons, not-nil}
use sast_engine.Ir.{Flow, Call, Arg, Param, Function}
use sast_engine.Ir.Binding.{bound_params}
use sast_engine.CallGraph.{func_by_id}
use sast_engine.Taint.{
  Edge, Engine, State, mark_tainted, keep_path, is_settled, carries_record, has_record,
}
use sast_engine.Taint.Rules.{Model, store_read_at}
use sast_engine.Taint.Index.{flows_from, arg_uses, receiver_uses}
use sast_engine.Taint.Entered.{record_hop_carries}
use sast_engine.Taint.Propagate.{
  flow_step, bind_step, outside_step, into_callback, through_receiver,
}
use sast_engine.Taint.Moves.{Moves, each-Moves, Moves-keeps}
use sast_engine.Taint.Round.{Moves-induction}

-- the hops that are always taken when no row is about
pub data Surely (e : Engine) (x : String) : String → Type 0 where
  flow : (f : Flow) → Memᴰ f (flows_from e.functions x) → Surely e x f.to
  argument :
      (c : Call) (a : Arg) (callee : Function) (p : Param)
      → Memᴰ c (arg_uses e.functions x)
      → Memᴰ a c.args
      → a.value_id ≡ x
      → c.callee.kind ≡ "local"
      → func_by_id e.functions c.callee.function_id ≡ some callee
      → Memᴰ p (bound_params a callee.params)
      → p.destructured ≡ false
      → Surely e x p.value_id
  through :
      (c : Call) (a : Arg)
      → Memᴰ c (arg_uses e.functions x)
      → Memᴰ a c.args
      → a.value_id ≡ x
      → same c.callee.kind "local" ≡ false
      → e.resolves c.id ≡ []
      → store_read_at e.model.persistence c.callee.symbol c.method c.receiver_type ≡ none
      → Surely e x c.result_id
  answer :
      (c : Call)
      → Memᴰ c (receiver_uses e.functions x)
      → same c.callee.kind "local" ≡ false
      → Surely e x c.result_id

abbrev pub HasNoRecords : State → Type 0
HasNoRecords st = (k : String) → st.record_fields k ≡ []

pub mark_tainted-HasNoRecords :
    (m : Model) (id : String) (ed : Edge) (st : State)
    → HasNoRecords st
    → HasNoRecords (mark_tainted m id ed st)
unfolding mark_tainted keep_path
mark_tainted-HasNoRecords m id ed st h k = ground (arith, h k)

pub has_record-HasNoRecords :
    (id : String) (st : State) → HasNoRecords st → has_record id st ≡ false
unfolding has_record
has_record-HasNoRecords id st h = rw (h id, has_record) refl

carries_record-HasNoRecords :
    (from to : String) (st : State) → HasNoRecords st → carries_record from to st ≡ st
unfolding carries_record
carries_record-HasNoRecords from to st h =
    rw (has_record-HasNoRecords from st h, carries_record) refl

pub Moves-HasNoRecords :
    (e : Engine) (st st' : State) → Moves e st st' → HasNoRecords st → HasNoRecords st'
Moves-HasNoRecords e =
    Moves-induction e HasNoRecords (λ st id ed t l h. mark_tainted-HasNoRecords e.model id ed st h)
      (λ st from to h. subst HasNoRecords (sym (carries_record-HasNoRecords from to st h)) h)

-- A value that is marked is classified.
pub mark_tainted-marks :
    (m : Model) (id : String) (ed : Edge) (st : State)
    → same id "" ≡ false
    → contains (mark_tainted m id ed st).tainted id ≡ true
unfolding mark_tainted keep_path is_settled
mark_tainted-marks m id ed st h =
    ground (arith, h, contains-insert id st.tainted id, same_iff id id)

-- A loop classifies what its body classifies for one of the elements.
pub each-marks {ℓ} :
    {A : Type ℓ} (e : Engine) (id y : String) (step : A → State → State) (xs : List A) (st : State)
    (x : A)
    → Memᴰ x xs
    → ((z : A) → Memᴰ z xs → (s : State) → contains s.tainted id ≡ true → Moves e s (step z s))
    → ((s : State)
        → contains s.tainted id ≡ true
        → HasNoRecords s
        → contains (step x s).tainted y ≡ true)
    → contains st.tainted id ≡ true
    → HasNoRecords st
    → contains (each step xs st).tainted y ≡ true
unfolding each
each-marks e id y step [] st x m h f t n = absurd (not-nil m)
each-marks e id y step (z ∷ xs) st x m h f t n =
    let first = h z (Memᴰ.head refl) st t in
    let t' = Moves-keeps e st (step z st) first id t in
    elim (cases_cons m) [
      | inl eq ↦
          Moves-keeps e (step z st) (each step xs (step z st))
            (each-Moves e id step xs (step z st) (λ w k. h w (Memᴰ.tail k)) t') y
            (subst (λ w. contains (step w st).tainted y ≡ true) eq (f st t n))
      | inr r ↦
          each-marks e id y step xs (step z st) x r (λ w k. h w (Memᴰ.tail k)) f t'
            (Moves-HasNoRecords e st (step z st) first n)
    ]

module _ (e : Engine) (id : String) where
  pub flow_step-marks :
      (f : Flow) (s : State)
      → same f.to "" ≡ false
      → HasNoRecords s
      → contains (flow_step e id f s).tainted f.to ≡ true
  unfolding flow_step record_hop_carries
  flow_step-marks f s h n =
      rw (n id, flow_step, record_hop_carries) (mark_tainted-marks e.model f.to _ s h)

  pub bind_step-marks :
      (c : Call) (a : Arg) (callee : Function) (p : Param) (s : State)
      → p.destructured ≡ false
      → same p.value_id "" ≡ false
      → contains (bind_step e id c a callee p s).tainted p.value_id ≡ true
  unfolding bind_step
  bind_step-marks c a callee p s d h =
      rw (d, bind_step) (mark_tainted-marks e.model p.value_id _ (carries_record id p.value_id s) h)

  pub outside_step-marks :
      (c : Call) (a : Arg) (s : State)
      → store_read_at e.model.persistence c.callee.symbol c.method c.receiver_type ≡ none
      → same c.result_id "" ≡ false
      → HasNoRecords s
      → contains (outside_step e id c a s).tainted c.result_id ≡ true
  unfolding outside_step
  outside_step-marks c a s r h n =
      rw (h, r, has_record-HasNoRecords id s n, outside_step)
        (mark_tainted-marks e.model c.result_id _ s h)

  pub through_receiver-marks :
      (c : Call) (s : State)
      → same c.callee.kind "local" ≡ false
      → same c.result_id "" ≡ false
      → contains (through_receiver e id c s).tainted c.result_id ≡ true
  unfolding through_receiver
  through_receiver-marks c s l h =
      rw (l, h, through_receiver)
        (mark_tainted-marks e.model c.result_id _ (into_callback e id c s) h)
