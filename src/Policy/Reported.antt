-- ===== src/Policy/Reported.antt =====
-- core/internal/policy/context.go: why a finding is not reported (Context, NotReportedBecause, Reportable).
use sast_engine.Prelude.{
  ℕ, suc, ap, String, ◌≡◌, ◌↔◌, ◌⊎◌, refl, inl, inr, Bool, true, false, not, ◌&&◌, same, same_iff,
  same_self, same-cases, if◌then◌else◌, arith, Bool-cases,
}
use Prim.Native.String.{count, ◌++◌ as join}
use text.Mathlib.TextLemmas.{length-append}

pub record Context : Type 0 where
  pub in_test_module : Bool
  pub provenance : String
  pub trust : String

unfoldable pub not_reported_because : Context → String
not_reported_because c =
    if c.in_test_module
    then "in a test module: it ships with the repository and does not run in production"
    else if not (same c.provenance "")
    then join "in " (join c.provenance " code: the repository did not hand-write it")
    else if not (same c.trust "") && not (same c.trust "remote")
    then join "reached only at "
        (join c.trust " trust: no lower-trust caller crosses a boundary into it")
    else ""

unfoldable pub reportable : Context → Bool
reportable c = same (not_reported_because c) ""

test_reason-said :
    same "in a test module: it ships with the repository and does not run in production" "" ≡ false
unfolding same
test_reason-said = refl

-- A text that begins with a text that is not empty is not empty.
begun-said : (s x : String) (n : ℕ) → count s ≡ suc n → same (join s x) "" ≡ false
begun-said s x n h = elim (same-cases (join s x) "") [
  | inl e ↦
      let c : count (join s x) ≡ 0 = ap count e in absurd (omega (arith, c, h, length-append s x))
  | inr f ↦ f
]

provenance_reason-said : (x : String) → same (join "in " x) "" ≡ false
provenance_reason-said x = begun-said "in " x 2 refl

trust_reason-said : (x : String) → same (join "reached only at " x) "" ≡ false
trust_reason-said x = begun-said "reached only at " x 15 refl

-- A finding is reported exactly if it is in no test module, the repository wrote its code by hand, and
-- the trust of its source is remote or not stated.
pub reportable_iff :
    (c : Context)
    → (reportable c ≡ true)
      ↔ ((c.in_test_module ≡ false) × (c.provenance ≡ "") × ((c.trust ≡ "") ⊎ (c.trust ≡ "remote")))
unfolding reportable not_reported_because
reportable_iff c =
    let p = join c.provenance " code: the repository did not hand-write it" in
    let t = join c.trust " trust: no lower-trust caller crosses a boundary into it" in
    elim (Bool-cases c.in_test_module) [
      | inl test ↦ (
        λ e.
            absurd
              (ground (arith, rw (test, reportable, not_reported_because) at e, test_reason-said)),
        λ (n, _, _). cc,
      )
      | inr live ↦ elim (same-cases c.provenance "") [
        | inr copied ↦ (
          λ e. absurd (
              ground (
                arith,
                rw (live, copied, reportable, not_reported_because) at e,
                provenance_reason-said p,
              )),
          λ (_, q, _). absurd (ground (arith, copied, (same_iff c.provenance "").1 q)),
        )
        | inl own ↦ elim (Bool-cases (not (same c.trust "") && not (same c.trust "remote"))) [
          | inl low ↦ (
            λ e. absurd (
                ground (
                  arith,
                  rw (live, (same_iff c.provenance "").1 own, low, reportable, not_reported_because)
                      at e,
                  trust_reason-said t,
                )),
            λ (_, _, r).
                absurd (ground (arith, low, r, same_iff c.trust "", same_iff c.trust "remote")),
          )
          | inr high ↦ (
            λ e. (
              live,
              own,
              elim (same-cases c.trust "") [
                | inl unsaid ↦ inl unsaid
                | inr said ↦ inr ((same_iff c.trust "remote").0 (ground (arith, high, said)))
              ],
            ),
            λ _.
                rw (live, (same_iff c.provenance "").1 own, high, reportable, not_reported_because)
                  (same_self ""),
          )
        ]
      ]
    ]
