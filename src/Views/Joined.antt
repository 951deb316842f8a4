-- ===== src/Views/Joined.antt =====
-- core/internal/flow/flow.go: JoinViews only appends to the functions of the program, and does nothing to
-- a program that is joined already.
use sast_engine.Prelude.{
  ℕ, String, ◌≡◌, refl, inl, inr, true, ◌||◌, some, List, [], ◌∷◌, ◌++◌, contains, same, arith,
  Bool-cases, Option-cases, sym, ap, subst, none-not-some, some-injective, length,
}
use mathlib.Core.List.{append-nil, append_assoc}
use sast_engine.Ir.{Function, Value, Flow, Call}
use sast_engine.CallGraph.{func_by_id}
use sast_engine.Views.{View, ViewRead}
use sast_engine.Views.Reach.{cut, rebind_path, view_by_id, ReachedView, reach}
use sast_engine.Views.Resolve.{Resolved}
use sast_engine.Views.Join.{
  Program, Report, Writer, Piece, append_sink, change_last, write_sink, marker_piece,
  property_piece, render_read, render_reads, render_views, render, render_all, is_left, report_of,
  resolved_renders, join_views, sink_key,
}

abbrev pub appended : Function → List Value → List Flow → List Call → Function
appended fn vs fs cs = record fn {
  values = fn.values ++ vs;
  flows = fn.flows ++ fs;
  calls = fn.calls ++ cs;
}

-- Function by function, the second list is the first with values, flows and calls appended.
pub data Extended : List Function → List Function → Type 0 where
  done : Extended [] []
  more :
      (fn : Function) (fns gns : List Function) (vs : List Value) (fs : List Flow) (cs : List Call)
      → Extended fns gns
      → Extended (fn ∷ fns) (appended fn vs fs cs ∷ gns)

appended-nil : (fn : Function) → appended fn [] [] [] ≡ fn
appended-nil fn = simp (append-nil fn.values, append-nil fn.flows, append-nil fn.calls)

appended-appended :
    (fn : Function) (vs vs' : List Value) (fs fs' : List Flow) (cs cs' : List Call)
    → appended (appended fn vs fs cs) vs' fs' cs' ≡ appended fn (vs ++ vs') (fs ++ fs') (cs ++ cs')
appended-appended fn vs vs' fs fs' cs cs' =
    simp (append_assoc fn.values vs vs', append_assoc fn.flows fs fs', append_assoc fn.calls cs cs')

Extended-refl : (fns : List Function) → Extended fns fns
Extended-refl [] = done
Extended-refl (fn ∷ fns) =
    subst (λ g. Extended (fn ∷ fns) (g ∷ fns)) (appended-nil fn)
      (more fn fns fns [] [] [] (Extended-refl fns))

Extended-trans :
    (fns gns hns : List Function) → Extended fns gns → Extended gns hns → Extended fns hns
Extended-trans _ _ _ done done = done
Extended-trans _ _ _ (more fn fns gns vs fs cs m) (more _ _ hns vs' fs' cs' n) =
    subst (λ g. Extended (fn ∷ fns) (g ∷ hns)) (sym (appended-appended fn vs vs' fs fs' cs cs'))
      (more fn fns hns (vs ++ vs') (fs ++ fs') (cs ++ cs') (Extended-trans fns gns hns m n))

change_last-Extended :
    (id : String) (read : ViewRead) (block : String) (p : Piece) (fns : List Function)
    → Extended fns (change_last id (append_sink read block p) fns)
unfolding change_last append_sink
change_last-Extended id read block p [] = done
change_last-Extended id read block p (fn ∷ fns) = elim (Option-cases (func_by_id fns id)) [
  | inr (later, e) ↦
      rw (e, change_last)
        (subst (λ g. Extended (fn ∷ fns) (g ∷ change_last id (append_sink read block p) fns))
          (appended-nil fn)
          (more fn fns (change_last id (append_sink read block p) fns) [] [] []
            (change_last-Extended id read block p fns)))
  | inl e ↦ elim (Bool-cases (same fn.id id)) [
    | inl s ↦ rw (e, s, change_last) (more fn fns fns _ _ _ (Extended-refl fns))
    | inr s ↦ rw (e, s, change_last) (Extended-refl (fn ∷ fns))
  ]
]

module _ (start : List Function) where
  -- The functions of the writer are those at the start with something appended.
  abbrev IsAppended : Writer → Type 0
  IsAppended w = Extended start w.functions

  render_read-IsAppended :
      (fid : String) (r : Resolved) (reached : ReachedView) (read : ViewRead) (w : Writer)
      → IsAppended w
      → IsAppended (render_read fid r reached read w)
  unfolding render_read write_sink
  render_read-IsAppended fid r reached read w i =
      let c = cut (rebind_path read.path reached.rebind) in
      elim (Option-cases (r.bound c.0)) [
        | inl n ↦ rw (n, render_read) i
        | inr (src, e) ↦
            elim (Bool-cases (same src "" || contains w.seen (sink_key fid read src))) [
              | inl s ↦ rw (e, s, render_read) i
              | inr s ↦
                  rw (e, s, render_read)
                    (Extended-trans start w.functions _ i (
                      change_last-Extended fid read r.block
                        (marker_piece fid read r.block
                          (property_piece fid read src c.1 r.block w.n))
                        w.functions))
            ]
      ]

  render_reads-IsAppended :
      (fid : String) (r : Resolved) (reached : ReachedView) (reads : List ViewRead) (w : Writer)
      → IsAppended w
      → IsAppended (render_reads fid r reached reads w)
  unfolding render_reads
  render_reads-IsAppended fid r reached [] w i = i
  render_reads-IsAppended fid r reached (read ∷ reads) w i =
      render_reads-IsAppended fid r reached reads (render_read fid r reached read w)
        (render_read-IsAppended fid r reached read w i)

  render_views-IsAppended :
      (views : List View) (fid : String) (r : Resolved) (rs : List ReachedView) (w : Writer)
      → IsAppended w
      → IsAppended (render_views views fid r rs w)
  unfolding render_views
  render_views-IsAppended views fid r [] w i = i
  render_views-IsAppended views fid r (reached ∷ rs) w i =
      render_views-IsAppended views fid r rs _ (elim (Option-cases (view_by_id views reached.id)) [
        | inl n ↦ rw n i
        | inr (v, e) ↦ rw e (render_reads-IsAppended fid r reached v.reads w i)
      ])

  render-IsAppended :
      (fuel : ℕ) (views : List View) (r : Resolved) (w w' : Writer)
      → IsAppended w
      → render fuel views r w ≡ some w'
      → IsAppended w'
  unfolding render
  render-IsAppended fuel views r w w' i h =
      elim (Option-cases (func_by_id w.functions r.function)) [
        | inl n ↦
            let e : some w ≡ some w' = rw (n, render) at h in
            subst IsAppended (some-injective w w' e) i
        | inr (fn, known) ↦ elim (Option-cases (reach views fuel r.view)) [
          | inl n ↦ absurd (none-not-some w' (rw (known, n, render) at h))
          | inr (rs, e) ↦
              let eq : some (render_views views fn.id r rs w) ≡ some w' =
                rw (known, e, render) at h in
              subst IsAppended (some-injective (render_views views fn.id r rs w) w' eq)
                (render_views-IsAppended views fn.id r rs w i)
        ]
      ]

  pub render_all-IsAppended :
      (fuel : ℕ) (views : List View) (rs : List Resolved) (w w' : Writer)
      → IsAppended w
      → render_all fuel views rs w ≡ some w'
      → IsAppended w'
  unfolding render_all
  render_all-IsAppended fuel views [] w w' i h = subst IsAppended (some-injective w w' h) i
  render_all-IsAppended fuel views (r ∷ rs) w w' i h = elim (Option-cases (render fuel views r w)) [
    | inl n ↦ absurd (none-not-some w' (rw (n, render_all) at h))
    | inr (mid, e) ↦
        render_all-IsAppended fuel views rs mid w' (render-IsAppended fuel views r w mid i e)
          (rw (e, render_all) at h)
  ]

is_left_joined : (p : Program) → p.views_joined ≡ true → is_left p ≡ true
unfolding is_left
is_left_joined p h = ground (arith, h)

join_views-left :
    (fuel : ℕ) (p : Program) → is_left p ≡ true → join_views fuel p ≡ some (p, report_of p 0 0)
unfolding join_views
join_views-left fuel p h = rw (h, join_views) refl

-- what the join keeps of a program
abbrev IsJoin : Program → Program → Type 0
IsJoin p q =
    Extended p.functions q.functions
    × (q.views ≡ p.views)
    × (q.renders ≡ p.renders)
    × ((again : ℕ) → join_views again q ≡ some (q, report_of q 0 0))

-- JoinViews, if it ends, returns the functions in their order, each with values, flows and calls appended
-- and otherwise unchanged, the views and the renders unchanged, and a program that it leaves alone when
-- it is given it again.
pub join_views-Extended :
    (fuel : ℕ) (p q : Program) (rep : Report)
    → join_views fuel p ≡ some (q, rep)
    → Extended p.functions q.functions
      × (q.views ≡ p.views)
      × (q.renders ≡ p.renders)
      × ((again : ℕ) → join_views again q ≡ some (q, report_of q 0 0))
unfolding join_views
join_views-Extended fuel p q rep h = elim (Bool-cases (is_left p)) [
  | inl left ↦
      let e : some (p, report_of p 0 0) ≡ some (q, rep) = rw (left, join_views) at h in
      subst (IsJoin p) (first (p, report_of p 0 0) (q, rep) e)
        (Extended-refl p.functions, refl, refl, λ again. join_views-left again p left)
  | inr go ↦ elim (Option-cases (render_all fuel p.views (resolved_renders p) (start p))) [
    | inl n ↦ absurd (none-not-some (q, rep) (rw (go, n, join_views) at h))
    | inr (w, ran) ↦
        let q' : Program = record p { functions = w.functions; views_joined = true } in
        let e : some (q', report_of p (length (resolved_renders p)) w.written) ≡ some (q, rep) =
          rw (go, ran, join_views) at h in
        subst (IsJoin p)
          (first (q', report_of p (length (resolved_renders p)) w.written) (q, rep) e)
          (
            render_all-IsAppended p.functions fuel p.views (resolved_renders p) (start p) w
                (Extended-refl p.functions) ran,
            refl,
            refl,
            λ again. join_views-left again q' (is_left_joined q' refl),
          )
  ]
]
  where
    start : Program → Writer
    start p = record { functions = p.functions; seen = []; n = 0; written = 0 }

    first : (x y : Program × Report) → some x ≡ some y → x.0 ≡ y.0
    first x y e = ap (λ (w : Program × Report). w.0) (some-injective x y e)
