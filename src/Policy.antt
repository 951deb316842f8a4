-- ===== src/Policy.antt =====
-- core/internal/policy/policy.go: what a team declares about its application, and the check of a policy
-- when it is loaded. Reading the file and its JSON are the argument: a policy, or none if that fails.
pub mod Loading
pub mod Reported
use sast_engine.Prelude.{
  ℕ, zero, suc, ℤ, pos, negsuc, String, Bool, true, false, not, ◌&&◌, ◌||◌, Option, none, some,
  List, [], ◌∷◌, same, is_some, if◌then◌else◌, nat_eq, select, to_lower,
}
use Prim.Native.String.{[] as empty, ◌∷◌ as char_before}
use text.Mathlib.Text.{find?, starts_with}

pub record Match : Type 0 where
  pub path_prefix : String
  pub group : String
  pub method : String

pub record EntryPointRule : Type 0 where
  pub match : Match
  pub public_by_design : Bool
  pub requires_controls : List String
  pub establishes_identity : Bool
  pub reason : String

pub record ControlDeclaration : Type 0 where
  pub name : String
  pub kind : String
  pub reason : String

pub record Policy : Type 0 where
  pub version : ℤ
  pub controls : List ControlDeclaration
  pub entry_points : List EntryPointRule
  pub path : String
  pub present : Bool

-- `Empty` of a match
unfoldable pub selects_nothing : Match → Bool
selects_nothing m = same m.path_prefix "" && same m.group "" && same m.method ""

-- `strings.TrimSpace(s) == ""`
unfoldable pub is_blank : String → Bool
is_blank empty = true
is_blank (char_before c s) =
    let rest = is_blank s in
    is_some (
      find?
        "\t\n\u{b}\u{c}\r \u{85}\u{a0}\u{1680}\u{2000}\u{2001}\u{2002}\u{2003}\u{2004}\u{2005}\u{2006}\u{2007}\u{2008}\u{2009}\u{200a}\u{2028}\u{2029}\u{202f}\u{205f}\u{3000}"
        (char_before c empty))
    && rest

-- what `Load` answers when it does not answer with a policy; an index says which declaration
pub data LoadError : Type 0 where
  not_decoded : LoadError
  other_version : ℤ → LoadError
  matches_nothing : ℕ → LoadError
  rule_unreasoned : ℕ → LoadError
  control_unnamed : ℕ → LoadError
  control_unreasoned : ℕ → LoadError

pub data Loaded : Type 0 where
  loaded : Policy → Loaded
  failed : LoadError → Loaded

-- the loop over the entry points
unfoldable pub check_rules : ℕ → List EntryPointRule → Option LoadError
check_rules i [] = none
check_rules i (r ∷ rs) =
    let rest = check_rules (suc i) rs in
    if selects_nothing r.match
    then some (matches_nothing i)
    else if is_blank r.reason
    then some (rule_unreasoned i)
    else rest

-- the loop over the controls
unfoldable pub check_controls : ℕ → List ControlDeclaration → Option LoadError
check_controls i [] = none
check_controls i (c ∷ cs) =
    let rest = check_controls (suc i) cs in
    if same c.name "" || same c.kind ""
    then some (control_unnamed i)
    else if is_blank c.reason
    then some (control_unreasoned i)
    else rest

-- `p.Version != SupportedVersion`
unfoldable pub is_supported : ℤ → Bool
is_supported (pos n) = nat_eq n 1
is_supported (negsuc n) = false

unfoldable pub load : Option Policy → String → Loaded
load none path = failed not_decoded
load (some p) path = elim (is_supported p.version) [
  | false ↦ failed (other_version p.version)
  | true ↦ elim (check_rules 0 p.entry_points) [
    | some e ↦ failed e
    | none ↦ elim (check_controls 0 p.controls) [
      | some e ↦ failed e
      | none ↦ loaded record p { path = path; present = true }
    ]
  ]
]

unfoldable pub classify_control : List ControlDeclaration → String → String
classify_control [] name = ""
classify_control (c ∷ cs) name =
    let rest = classify_control cs name in if same c.name name then c.kind else rest

unfoldable pub declares : EntryPointRule → String → Bool
declares r property =
    if same property "publicByDesign"
    then r.public_by_design
    else if same property "establishesIdentity"
    then r.establishes_identity
    else false

-- `Matches`; the method is compared without regard to the case of ASCII letters
unfoldable pub rule_matches : EntryPointRule → String → String → String → Bool
rule_matches r method path group =
    if not (same r.match.method "") && not (same (to_lower r.match.method) (to_lower method))
    then false
    else if not (same r.match.path_prefix "") && not (starts_with path r.match.path_prefix)
    then false
    else if not (same r.match.group "") && not (same r.match.group group)
    then false
    else true

unfoldable pub rules_for : Policy → String → String → String → List EntryPointRule
rules_for p method path group = select (λ r. rule_matches r method path group) p.entry_points
