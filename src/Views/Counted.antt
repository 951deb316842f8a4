-- ===== src/Views/Counted.antt =====
-- core/internal/flow/flow.go: the sinks that JoinViews reports are the calls that it adds.
use sast_engine.Prelude.{
  ℕ, suc, ◌+◌, String, ◌≡◌, refl, inl, inr, true, ◌||◌, some, List, [], ◌∷◌, contains, same,
  is_some, arith, Bool-cases, Option-cases, ap, ◌∙◌, subst, none-not-some, some-injective, length,
  length-append,
}
use sast_engine.Ir.{Function}
use sast_engine.CallGraph.{func_by_id}
use sast_engine.CallGraph.Lookup.{func_by_id-id}
use sast_engine.Views.{View, ViewRead}
use sast_engine.Views.Reach.{cut, rebind_path, view_by_id, ReachedView, reach}
use sast_engine.Views.Resolve.{Resolved}
use sast_engine.Views.Join.{
  Program, Report, Writer, Piece, append_sink, change_last, write_sink, marker_piece,
  property_piece, render_read, render_reads, render_views, render, render_all, is_left, report_of,
  resolved_renders, join_views, sink_key,
}

unfoldable pub calls_in : List Function → ℕ
calls_in [] = 0
calls_in (fn ∷ fns) = length fn.calls + calls_in fns

module _ (id : String) (read : ViewRead) (block : String) (p : Piece) where
  change_last-known :
      (fns : List Function) (j : String)
      → is_some (func_by_id (change_last id (append_sink read block p) fns) j)
        ≡ is_some (func_by_id fns j)
  unfolding change_last append_sink func_by_id
  change_last-known [] j = refl
  change_last-known (fn ∷ fns) j = ground (arith, change_last-known fns j)

  calls_in-change_last :
      (fns : List Function)
      → is_some (func_by_id fns id) ≡ true
      → calls_in (change_last id (append_sink read block p) fns) ≡ suc (calls_in fns)
  unfolding change_last append_sink func_by_id calls_in
  calls_in-change_last [] h = cc
  calls_in-change_last (fn ∷ fns) h = elim (Option-cases (func_by_id fns id)) [
    | inr (later, e) ↦
        rw (e, change_last, calls_in) (omega (arith, calls_in-change_last fns (rw e refl)))
    | inl e ↦ elim (Bool-cases (same fn.id id)) [
      | inl s ↦ rw (e, s, change_last, calls_in) (omega (arith, length-append fn.calls (_ ∷ [])))
      | inr s ↦ absurd (ground (arith, h, e, s))
    ]
  ]

-- the calls so far are those at the start and the sinks that are counted, and the function is there
record IsCounted (base : ℕ) (fid : String) (w : Writer) : Type 0 where
  total : calls_in w.functions ≡ base + w.written
  there : is_some (func_by_id w.functions fid) ≡ true

module _ (base : ℕ) (fid : String) where
  render_read-IsCounted :
      (r : Resolved) (reached : ReachedView) (read : ViewRead) (w : Writer)
      → IsCounted base fid w
      → IsCounted base fid (render_read fid r reached read w)
  unfolding render_read write_sink
  render_read-IsCounted r reached read w i =
      let c = cut (rebind_path read.path reached.rebind) in
      elim (Option-cases (r.bound c.0)) [
        | inl n ↦ rw (n, render_read) i
        | inr (src, e) ↦
            elim (Bool-cases (same src "" || contains w.seen (sink_key fid read src))) [
              | inl s ↦ rw (e, s, render_read) i
              | inr s ↦
                  let p =
                    marker_piece fid read r.block (property_piece fid read src c.1 r.block w.n) in
                  rw (e, s, render_read)
                    record {
                      total = omega (
                        arith,
                        i.total,
                        calls_in-change_last fid read r.block p w.functions i.there,
                      );
                      there = change_last-known fid read r.block p w.functions fid ∙ i.there;
                    }
            ]
      ]

  render_reads-IsCounted :
      (r : Resolved) (reached : ReachedView) (reads : List ViewRead) (w : Writer)
      → IsCounted base fid w
      → IsCounted base fid (render_reads fid r reached reads w)
  unfolding render_reads
  render_reads-IsCounted r reached [] w i = i
  render_reads-IsCounted r reached (read ∷ reads) w i =
      render_reads-IsCounted r reached reads (render_read fid r reached read w)
        (render_read-IsCounted r reached read w i)

  render_views-IsCounted :
      (views : List View) (r : Resolved) (rs : List ReachedView) (w : Writer)
      → IsCounted base fid w
      → IsCounted base fid (render_views views fid r rs w)
  unfolding render_views
  render_views-IsCounted views r [] w i = i
  render_views-IsCounted views r (reached ∷ rs) w i =
      render_views-IsCounted views r rs _ (elim (Option-cases (view_by_id views reached.id)) [
        | inl n ↦ rw n i
        | inr (v, e) ↦ rw e (render_reads-IsCounted r reached v.reads w i)
      ])

module _ (base : ℕ) (fuel : ℕ) (views : List View) where
  render-counted :
      (r : Resolved) (w w' : Writer)
      → calls_in w.functions ≡ base + w.written
      → render fuel views r w ≡ some w'
      → calls_in w'.functions ≡ base + w'.written
  unfolding render
  render-counted r w w' i h = elim (Option-cases (func_by_id w.functions r.function)) [
    | inl n ↦
        let e : some w ≡ some w' = rw (n, render) at h in
        subst (λ (u : Writer). calls_in u.functions ≡ base + u.written) (some-injective w w' e) i
    | inr (fn, known) ↦ elim (Option-cases (reach views fuel r.view)) [
      | inl n ↦ absurd (none-not-some w' (rw (known, n, render) at h))
      | inr (rs, e) ↦
          let w₁ = render_views views fn.id r rs w in
          let eq : some w₁ ≡ some w' = rw (known, e, render) at h in
          let same_id = func_by_id-id w.functions r.function fn known in
          let start : IsCounted base fn.id w = record {
            total = i;
            there = ap is_some (ap (func_by_id w.functions) same_id ∙ known);
          } in
          let c = render_views-IsCounted base fn.id views r rs w start in
          subst (λ (u : Writer). calls_in u.functions ≡ base + u.written) (some-injective w₁ w' eq)
            c.total
    ]
  ]

  render_all-counted :
      (rs : List Resolved) (w w' : Writer)
      → calls_in w.functions ≡ base + w.written
      → render_all fuel views rs w ≡ some w'
      → calls_in w'.functions ≡ base + w'.written
  unfolding render_all
  render_all-counted [] w w' i h =
      subst (λ (u : Writer). calls_in u.functions ≡ base + u.written) (some-injective w w' h) i
  render_all-counted (r ∷ rs) w w' i h = elim (Option-cases (render fuel views r w)) [
    | inl n ↦ absurd (none-not-some w' (rw (n, render_all) at h))
    | inr (mid, e) ↦
        render_all-counted rs mid w' (render-counted r w mid i e) (rw (e, render_all) at h)
  ]

-- The number of sinks that JoinViews reports is the number of calls that it adds to the program.
pub join_views-sinks :
    (fuel : ℕ) (p q : Program) (rep : Report)
    → join_views fuel p ≡ some (q, rep)
    → calls_in q.functions ≡ calls_in p.functions + rep.sinks
unfolding join_views report_of
join_views-sinks fuel p q rep h = elim (Bool-cases (is_left p)) [
  | inl left ↦
      let e : some (p, report_of p 0 0) ≡ some (q, rep) = rw (left, join_views) at h in
      let eq = some-injective (p, report_of p 0 0) (q, rep) e in subst IsRight eq (omega arith)
  | inr go ↦ elim (Option-cases (render_all fuel p.views (resolved_renders p) (start p))) [
    | inl n ↦ absurd (none-not-some (q, rep) (rw (go, n, join_views) at h))
    | inr (w, ran) ↦
        let q' : Program = record p { functions = w.functions; views_joined = true } in
        let rep' = report_of p (length (resolved_renders p)) w.written in
        let e : some (q', rep') ≡ some (q, rep) = rw (go, ran, join_views) at h in
        subst IsRight (some-injective (q', rep') (q, rep) e) (
          render_all-counted (calls_in p.functions) fuel p.views (resolved_renders p) (start p) w
            (omega arith) ran)
  ]
]
  where
    start : Program → Writer
    start p = record { functions = p.functions; seen = []; n = 0; written = 0 }

    IsRight : Program × Report → Type 0
    IsRight (a, s) = calls_in a.functions ≡ calls_in p.functions + s.sinks
