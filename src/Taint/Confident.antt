-- ===== src/Taint/Confident.antt =====
-- core/internal/taint/taint.go: the confidence of a path is that of its worst hop (confidenceOf).
use sast_engine.Prelude.{
  String, ◌≡◌, ◌≢◌, ◌↔◌, refl, inl, inr, true, false, List, [], ◌∷◌, same, same_iff, arith,
  Bool-cases, if◌then◌else◌, Memᴰ, sym, ap, ◌∙◌,
}
use mathlib.Core.List.Memᴰ.{cases_cons, not-nil}
use sast_engine.Taint.Path
use sast_engine.Taint.Path.{Hop, Confidence, worst_of, confidence_of}

-- Some hop of the path resolved so.
abbrev pub HasHop : String → List Hop → Type 0
HasHop resolution path = (h : Hop) × Memᴰ h path × (h.resolution ≡ resolution)

HasHop-cons :
    (resolution : String) (h : Hop) (path : List Hop)
    → same h.resolution resolution ≡ false
    → HasHop resolution (h ∷ path)
    → HasHop resolution path
HasHop-cons resolution h path n (g, m, e) = elim (cases_cons m) [
  | inl eq ↦
      let t : same h.resolution resolution ≡ true =
        (same_iff h.resolution resolution).1 (ap (λ (w : Hop). w.resolution) (sym eq) ∙ e) in
      cc
  | inr r ↦ (g, r, e)
]

next_worst :
    (h : Hop) (worst : Confidence)
    → (worst ≢ Path.low)
    → (if same h.resolution "probable" then Path.medium else worst) ≢ Path.low
next_worst h worst n = ground (arith, n)

worst_of-low :
    (worst : Confidence) (path : List Hop)
    → (worst ≢ Path.low)
    → (worst_of worst path ≡ Path.low) ↔ HasHop "dynamic-unresolved" path
unfolding worst_of
worst_of-low worst [] n = (λ e. absurd (n e), λ (h, m, e). absurd (not-nil m))
worst_of-low worst (h ∷ path) n = elim (Bool-cases (same h.resolution "dynamic-unresolved")) [
  | inl d ↦ (
    λ _. (h, Memᴰ.head refl, (same_iff h.resolution "dynamic-unresolved").0 d),
    λ _. rw (d, worst_of) refl,
  )
  | inr f ↦
      let rest =
        worst_of-low (if same h.resolution "probable" then Path.medium else worst) path
          (next_worst h worst n) in
      (
        λ e. let (g, m, r) = rest.0 (rw (f, worst_of) at e) in (g, Memᴰ.tail m, r),
        λ w. rw (f, worst_of) (rest.1 (HasHop-cons "dynamic-unresolved" h path f w)),
      )
]

worst_of-high :
    (worst : Confidence) (path : List Hop)
    → (worst_of worst path ≡ Path.high)
      ↔ ((worst ≡ Path.high) × ¬ HasHop "dynamic-unresolved" path × ¬ HasHop "probable" path)
unfolding worst_of
worst_of-high worst [] = (λ e. (e, λ (h, m, r). not-nil m, λ (h, m, r). not-nil m), λ (e, d, p). e)
worst_of-high worst (h ∷ path) = elim (Bool-cases (same h.resolution "dynamic-unresolved")) [
  | inl d ↦ (
    λ e. let bad : Path.low ≡ Path.high = rw (d, worst_of) at e in cc,
    λ (e, no_dynamic, q).
        absurd (no_dynamic (h, Memᴰ.head refl, (same_iff h.resolution "dynamic-unresolved").0 d)),
  )
  | inr f ↦ elim (Bool-cases (same h.resolution "probable")) [
    | inl p ↦ (
      λ e. let (bad, _, _) = (worst_of-high Path.medium path).0 (rw (f, p, worst_of) at e) in cc,
      λ (e, d, no_probable).
          absurd (no_probable (h, Memᴰ.head refl, (same_iff h.resolution "probable").0 p)),
    )
    | inr n ↦
        let rest = worst_of-high worst path in
        (
          λ e.
              let (w, d, q) = rest.0 (rw (f, n, worst_of) at e) in
              (
                w,
                λ b. d (HasHop-cons "dynamic-unresolved" h path f b),
                λ b. q (HasHop-cons "probable" h path n b),
              ),
          λ (w, d, q).
              rw (f, n, worst_of)
                (rest.1
                  (w, λ (g, m, r). d (g, Memᴰ.tail m, r), λ (g, m, r). q (g, Memᴰ.tail m, r))),
        )
  ]
]

-- The confidence of a path is low if some hop is unresolved, high if none is unresolved or probable.
pub confidence_of_iff :
    (path : List Hop)
    → ((confidence_of path ≡ Path.low) ↔ HasHop "dynamic-unresolved" path)
      × ((confidence_of path ≡ Path.high)
          ↔ (¬ HasHop "dynamic-unresolved" path × ¬ HasHop "probable" path))
unfolding confidence_of
confidence_of_iff path =
    let h = worst_of-high Path.high path in
    (
      worst_of-low Path.high path (λ e. cc),
      (λ e. let (_, d, p) = h.0 e in (d, p), λ (d, p). h.1 (refl, d, p)),
    )
