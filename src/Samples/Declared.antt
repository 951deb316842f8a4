-- ===== src/Samples/Declared.antt =====
-- Policies and baselines: tests, and the theorems at small inputs.
use sast_engine.Prelude.{
  pos, String, ◌≡◌, ◌↔◌, ◌⊎◌, refl, true, false, some, List, [], ◌∷◌, contains, same, length, Memᴰ,
}
use sast_engine.Policy
use sast_engine.Policy.{
  Policy, EntryPointRule, ControlDeclaration, load, loaded, failed, is_supported,
}
use sast_engine.Policy.Loading.{IsStated, IsNamed, load_iff}
use sast_engine.Policy.Reported
use sast_engine.Policy.Reported.{Context, reportable, reportable_iff}
use sast_engine.Baseline
use sast_engine.Baseline.{
  Finding, Document, Baseline, read, accepted, document_of, fingerprints, is_known, count_of,
  read-written,
}

abbrev rule : String → EntryPointRule
rule reason = record {
  match = record { path_prefix = "/health"; group = ""; method = "GET" };
  public_by_design = true;
  requires_controls = [];
  establishes_identity = false;
  reason = reason;
}

abbrev policy : String → Policy
policy reason = record {
  version = pos 1;
  controls = record { name = "auth.required"; kind = "authentication"; reason = "see ADR-3" } ∷ [];
  entry_points = rule reason ∷ [];
  path = "";
  present = false;
}

-- a reason of white space is none
refused : load (some (policy " \t")) "sast.json" ≡ failed (Policy.rule_unreasoned 0)
unfolding load same Policy.check_rules Policy.check_controls Policy.is_blank Policy.selects_nothing
    Policy.is_supported
refused = refl

load_iff_example :
    (load (some (policy "a probe")) "sast.json"
      ≡ loaded record (policy "a probe") { path = "sast.json"; present = true })
    ↔ ((is_supported (pos 1) ≡ true)
        × ((r : EntryPointRule) → Memᴰ r (rule "a probe" ∷ []) → IsStated r)
        × ((c : ControlDeclaration) → Memᴰ c (policy "a probe").controls → IsNamed c))
load_iff_example = load_iff (policy "a probe") "sast.json"

abbrev operator : Context
operator = record { in_test_module = false; provenance = ""; trust = "operator" }

operator_reason :
    Reported.not_reported_because operator
    ≡ "reached only at operator trust: no lower-trust caller crosses a boundary into it"
unfolding Reported.not_reported_because same
operator_reason = refl

reportable_iff_example : (reportable operator ≡ true) ↔ (
    (operator.in_test_module ≡ false)
    × (operator.provenance ≡ "")
    × ((operator.trust ≡ "") ⊎ (operator.trust ≡ "remote")))
reportable_iff_example = reportable_iff operator

abbrev finding : String → Finding
finding fingerprint = record {
  fingerprint = fingerprint;
  cwe = "CWE-89";
  policy = "injection";
  entry_point = "";
  sink = "";
  note = "";
}

abbrev findings : List Finding
findings = finding "b2" ∷ finding "a1" ∷ []

sorted : (document_of findings).entries ≡ (finding "a1" ∷ finding "b2" ∷ [])
unfolding document_of Baseline.sort_findings Baseline.insert_finding Baseline.is_after
sorted = refl

all_named : contains (fingerprints findings) "" ≡ false
unfolding contains same fingerprints
all_named = refl

read-written_example :
    (b : Baseline) × (read (some (document_of findings)) ≡ accepted b)
    × ((k : String) → is_known (some b) k ≡ contains (fingerprints findings) k)
    × (count_of (some b) ≡ length findings)
read-written_example = read-written (λ d. d) (λ d. some d) (λ d. refl) findings all_named
