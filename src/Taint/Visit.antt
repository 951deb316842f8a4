-- ===== src/Taint/Visit.antt =====
-- core/internal/taint/taint.go: a destructured argument, a method's object and a return make only
-- moves of the program, and so does a whole round.
use sast_engine.Prelude.{
  ℕ, subst, String, ◌≡◌, refl, inl, inr, true, not, ◌||◌, Option, some, List, [], ◌∷◌, contains,
  same, Memᴰ, arith, Bool-cases, Option-cases, sym,
}
use sast_engine.Ir.{Call, Arg, Param, Function}
use sast_engine.Ir.Binding.{bound_params, binds}
use sast_engine.CallGraph.{func_by_id}
use sast_engine.Taint.{Engine, State}
use sast_engine.Taint.Index.{
  receiver_uses, entry_uses, DestructuredUse, owner_of_value, call_sites_of, returns_of,
}
use sast_engine.Taint.Entered.{
  binding_reads, passed_at_param, call_site_passes_taint, taint_entered_via_param,
}
use sast_engine.Taint.Describe
use sast_engine.Taint.Propagate.{
  destructured_step, through_destructured_arg, callback_target, into_callback, through_receiver,
  hand_back, site_step, through_return,
}
use sast_engine.Taint.Leads.{Leads, property, callback, received, returned, answered}
use sast_engine.Taint.Moves.{IsKeptLed, Moves, stay, marked, each-Moves, Moves-keeps}
use sast_engine.Taint.Inward.{EntersAt, taint_entered_via_param_lem}
use sast_engine.Taint.Hops.{renamed_and_marked}

destructured_step-Moves :
    (e : Engine) (id : String) (u : DestructuredUse) (callee : Function) (p : Param) (st : State)
    → Memᴰ u (entry_uses e.functions id)
    → func_by_id e.functions u.call.callee.function_id ≡ some callee
    → Memᴰ p (bound_params u.arg callee.params)
    → contains st.tainted id ≡ true
    → Moves e st (destructured_step e id u callee p st)
unfolding destructured_step Describe.hop
destructured_step-Moves e id u callee p st m known n t =
    elim (Bool-cases
      (not p.destructured || same p.path "" || not (binding_reads e p.path u.key id st))) [
        | inl stop ↦ rw (stop, destructured_step) stay
        | inr go ↦
            rw (go, destructured_step)
              (renamed_and_marked e st p.value_id _ t
                (property id u callee p m known n (ground arith) (ground arith)))
      ]

pub through_destructured_arg-Moves :
    (e : Engine) (id : String) (u : DestructuredUse) (st : State)
    → Memᴰ u (entry_uses e.functions id)
    → contains st.tainted id ≡ true
    → Moves e st (through_destructured_arg e id u st)
unfolding through_destructured_arg
through_destructured_arg-Moves e id u st m t =
    elim (Option-cases (func_by_id e.functions u.call.callee.function_id)) [
      | inl unknown ↦ rw (unknown, through_destructured_arg) stay
      | inr (callee, known) ↦
          rw (known, through_destructured_arg)
            (each-Moves e id (destructured_step e id u callee) (bound_params u.arg callee.params) st
              (λ p n s t'. destructured_step-Moves e id u callee p s m known n t') t)
    ]

into_callback-Moves :
    (e : Engine) (id : String) (c : Call) (st : State)
    → Memᴰ c (receiver_uses e.functions id)
    → contains st.tainted id ≡ true
    → Moves e st (into_callback e id c st)
unfolding into_callback Describe.hop
into_callback-Moves e id c st m t = elim (Option-cases (callback_target e c)) [
  | inl stop ↦ rw (stop, into_callback) stay
  | inr ((p, note), go) ↦
      rw (go, into_callback) (marked st p.value_id _ stay t (callback id c p note m go))
]

pub through_receiver-Moves :
    (e : Engine) (id : String) (c : Call) (st : State)
    → Memᴰ c (receiver_uses e.functions id)
    → contains st.tainted id ≡ true
    → Moves e st (through_receiver e id c st)
unfolding through_receiver Describe.hop
through_receiver-Moves e id c st m t =
    let first = into_callback-Moves e id c st m t in
    elim (Bool-cases (same c.callee.kind "local" || same c.result_id "")) [
      | inl stop ↦ rw (stop, through_receiver) first
      | inr go ↦
          rw (go, through_receiver)
            (marked (into_callback e id c st) c.result_id _ first
              (Moves-keeps e st (into_callback e id c st) first id t)
              (received id c m (ground arith) (ground arith)))
    ]

hand_back-Moves :
    (e : Engine) (from desc : String) (site : Call) (st : State)
    → Leads e from site.result_id
    → contains st.tainted from ≡ true
    → Moves e st (hand_back e from desc site st)
unfolding hand_back Describe.hop
hand_back-Moves e from desc site st l t = renamed_and_marked e st site.result_id _ t l

-- What a call site hands to a parameter is one of its arguments, and is classified.
passed_at_param_lem :
    (args : List Arg) (fn : Function) (index : ℕ) (st : State) (from : String)
    → passed_at_param args fn index st ≡ some from
    → (a : Arg) × Memᴰ a args
      × (a.value_id ≡ from)
      × (binds a fn.params index ≡ true)
      × (contains st.tainted from ≡ true)
unfolding passed_at_param
passed_at_param_lem [] fn index st from h = cc
passed_at_param_lem (a ∷ args) fn index st from h =
    let later : passed_at_param args fn index st ≡ some from
        → (b : Arg) × Memᴰ b (a ∷ args)
          × (b.value_id ≡ from)
          × (binds b fn.params index ≡ true)
          × (contains st.tainted from ≡ true) =
      λ r.
        let (b, m, v, i, t) = passed_at_param_lem args fn index st from r in
        (b, Memᴰ.tail m, v, i, t) in
    elim (Bool-cases (same a.value_id "" || not (binds a fn.params index))) [
      | inl skip ↦ later (rw (skip, passed_at_param) at h)
      | inr bound ↦ elim (Bool-cases (contains st.tainted a.value_id)) [
        | inr clean ↦ later (rw (bound, clean, passed_at_param) at h)
        | inl hit ↦
            let eq : some a.value_id ≡ some from = rw (bound, hit, passed_at_param) at h in
            let eq' : a.value_id ≡ from = cc in
            (a, Memᴰ.head refl, eq', ground arith, rw (sym eq') hit)
      ]
    ]

site_step-Moves :
    (e : Engine) (id : String) (fn : Function) (entered : Option (String × ℕ)) (site : Call)
    (st : State)
    → owner_of_value e.functions id ≡ some fn
    → contains (returns_of e.functions fn.id) id ≡ true
    → Memᴰ site (call_sites_of e.functions fn.id)
    → ((at : String) (index : ℕ) → entered ≡ some (at, index) → EntersAt e fn.params index id)
    → contains st.tainted id ≡ true
    → Moves e st (site_step e id fn entered site st)
unfolding site_step
site_step-Moves e id fn entered site st o r m enters t =
    elim (Bool-cases (same site.result_id "")) [
      | inl stop ↦ rw (stop, site_step) stay
      | inr go ↦
          let back : (desc : String) → Moves e st (hand_back e id desc site st) =
            λ desc. hand_back-Moves e id desc site st (returned id fn site o r m go) t in
          elim (Option-cases entered) [
            | inl inside ↦ rw (go, inside, site_step) (back _)
            | inr ((at_site, index), param) ↦ elim (Bool-cases (same at_site "")) [
              | inl start ↦ elim (Bool-cases (call_site_passes_taint site st)) [
                | inl gives ↦ rw (go, param, start, gives, site_step) (back _)
                | inr keeps ↦ rw (go, param, start, keeps, site_step) stay
              ]
              | inr delivered ↦ elim (Bool-cases (same site.id at_site)) [
                | inl here ↦ rw (go, param, delivered, here, site_step) (back _)
                | inr there ↦ elim (Option-cases (passed_at_param site.args fn index st)) [
                  | inl nothing ↦ rw (go, param, delivered, there, nothing, site_step) stay
                  | inr (from, own) ↦
                      let (a, n, v, b, t') = passed_at_param_lem site.args fn index st from own in
                      let (p, k, i, l) = enters at_site index param in
                      let b' : binds a fn.params p.index ≡ true =
                        subst (λ j. binds a fn.params j ≡ true) (sym i) b in
                      rw (go, param, delivered, there, own, site_step)
                        (hand_back-Moves e from _ site st
                          (answered from id fn site a p o r m go n v k b' l) t')
                ]
              ]
            ]
          ]
    ]

pub through_return-Moves :
    (e : Engine) (id : String) (st : State)
    → IsKeptLed e st
    → contains st.tainted id ≡ true
    → Moves e st (through_return e id st)
unfolding through_return
through_return-Moves e id st led t = elim (Option-cases (owner_of_value e.functions id)) [
  | inl nobody ↦ rw (nobody, through_return) stay
  | inr (fn, o) ↦ elim (Bool-cases (contains (returns_of e.functions fn.id) id)) [
    | inr stop ↦ rw (o, stop, through_return) stay
    | inl r ↦
        rw (o, r, through_return)
          (each-Moves e id (site_step e id fn (taint_entered_via_param fn id st))
            (call_sites_of e.functions fn.id) st
            (λ site m s t'.
              site_step-Moves e id fn (taint_entered_via_param fn id st) site s o r m
                (λ at index h. taint_entered_via_param_lem e fn.params st led fn id at index refl h)
                t')
            t)
  ]
]
