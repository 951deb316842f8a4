-- ===== src/Samples/Ambiguity.antt =====
-- Adjacent repetitions of core/internal/model/regexparse.go: tests, and the theorems on small patterns.
use sast_engine.Prelude.{ℕ, ◌≡◌, refl, ◌↔◌, Bool, true, false, List, [], ◌∷◌, Option, none, some}
use sast_engine.Regex.{CharSet, no_chars}
use sast_engine.Regex.Parse.{parse_regex}
use sast_engine.Regex.Parse
use sast_engine.Regex.Matching
use sast_engine.Regex.Adjacent
use sast_engine.Regex.Adjacent.{adjacent_ambiguity, leading_set}
use sast_engine.Regex.Leads.{LeadsAlts}
use sast_engine.Regex.Begins.{Begins}
use sast_engine.Regex.Leading.{leading_set-LeadsAlts}
use sast_engine.Samples.Patterns.{excluding, or_none_left}

-- `[a-z-]+(-[a-z]+)*`
abbrev hyphens : List ℕ
hyphens = 91 ∷ 97 ∷ 45 ∷ 122 ∷ 45 ∷ 93 ∷ 43 ∷ 40 ∷ 45 ∷ 91 ∷ 97 ∷ 45 ∷ 122 ∷ 93 ∷ 43 ∷ 41 ∷ 42 ∷ []

-- `[a-z]+(-[a-z]+)*`
abbrev words : List ℕ
words = 91 ∷ 97 ∷ 45 ∷ 122 ∷ 93 ∷ 43 ∷ 40 ∷ 45 ∷ 91 ∷ 97 ∷ 45 ∷ 122 ∷ 93 ∷ 43 ∷ 41 ∷ 42 ∷ []

-- `a?-b`
abbrev optional_first : List ℕ
optional_first = 97 ∷ 63 ∷ 45 ∷ 98 ∷ []

asking : List ℕ → Bool
unfolding excluding Parse.group_prefix Parse.close_group parse_regex adjacent_ambiguity
    Adjacent.any_below Adjacent.empty Adjacent.overlaps Adjacent.contains_unbounded
    Adjacent.leading_from leading_set Adjacent.competes Adjacent.competes_with_next
    Adjacent.seq_has_adjacent_ambiguity
asking = adjacent_ambiguity

ambiguous : asking hyphens ≡ true
unfolding asking
ambiguous = refl

unambiguous : asking words ≡ false
unfolding asking
unambiguous = refl

abbrev or_no_chars : Option CharSet → CharSet
or_no_chars none = no_chars
or_no_chars (some s) = s

abbrev marker_of : List ℕ → CharSet
marker_of pattern = or_no_chars (leading_set (or_none_left (parse_regex pattern)))

-- A branch that begins with an optional `a` can begin with an `a`, which is not in the set.
optional_first_lost : (marker_of optional_first).ascii 97 ≡ false
unfolding asking
optional_first_lost = refl

leading_set-LeadsAlts_example :
    ((c : ℕ)
      → (Matching.in_set (marker_of optional_first) c ≡ true)
        ↔ ((u : List ℕ) × LeadsAlts (or_none_left (parse_regex optional_first)) u c))
    × ((before text after : List ℕ)
        → Matching.MatchesAlts (or_none_left (parse_regex optional_first)) before text after
        → Begins (LeadsAlts (or_none_left (parse_regex optional_first))) text)
unfolding asking
leading_set-LeadsAlts_example =
    leading_set-LeadsAlts (or_none_left (parse_regex optional_first)) (marker_of optional_first)
      refl
