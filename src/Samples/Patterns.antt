-- ===== src/Samples/Patterns.antt =====
-- Tests of the regular expressions of core/internal/model/regexparse.go on small patterns.
use sast_engine.Prelude.{
  ℕ, ◌≡◌, ◌≢◌, refl, Bool, true, false, List, [], ◌∷◌, ◌++◌, Option, none, some, inl, inr, arith,
}
use mathlib.Core.List.{Memᴰ}
use sast_engine.Regex
use sast_engine.Regex.{Alts, none_left}
use sast_engine.Regex.Bytes
use sast_engine.Regex.Quantifier
use sast_engine.Regex.Classes
use sast_engine.Regex.Parse.{parse_regex, parse_whole, regex_body}
use sast_engine.Regex.Parse
use sast_engine.Regex.Summary.{anchored_regex_excludes}
use sast_engine.Regex.Summary
use sast_engine.Regex.Matching
use sast_engine.Regex.Matching.{Accepts}
use sast_engine.Regex.Covers
use sast_engine.Regex.Fuel.{parse_alts_total}
use sast_engine.Regex.Counts.{brace_quantity-Allows}
use sast_engine.Regex.Counts
use sast_engine.Regex.Excludes.{anchored_regex_excludes_sound}

-- `^[a-z]+$`
abbrev lower_case : List ℕ
lower_case = 94 ∷ 91 ∷ 97 ∷ 45 ∷ 122 ∷ 93 ∷ 43 ∷ 36 ∷ []

-- `^[.-\w]+$`
abbrev dot_hyphen : List ℕ
dot_hyphen = 94 ∷ 91 ∷ 46 ∷ 45 ∷ 92 ∷ 119 ∷ 93 ∷ 43 ∷ 36 ∷ []

-- `^\.é?\.$`, in UTF-8
abbrev dotted : List ℕ
dotted = 94 ∷ 92 ∷ 46 ∷ 195 ∷ 169 ∷ 63 ∷ 92 ∷ 46 ∷ 36 ∷ []

-- `^\.x{00}\.$`
abbrev zeros : List ℕ
zeros = 94 ∷ 92 ∷ 46 ∷ 120 ∷ 123 ∷ 48 ∷ 48 ∷ 125 ∷ 92 ∷ 46 ∷ 36 ∷ []

abbrev pub or_none_left : Option Alts → Alts
or_none_left none = none_left
or_none_left (some alts) = alts

unfoldable pub excluding : List ℕ → List (List ℕ) → Bool
unfolding anchored_regex_excludes regex_body parse_whole Parse.parse_alts Parse.parse_seq
    Parse.parse_atom Parse.plain_atom Parse.after_bar Parse.atom_start Parse.add_branch
    Parse.add_node Parse.escape_atom Classes.parse_class Classes.class_loop Classes.class_atom
    Classes.class_escape Classes.range_end Classes.shorthand Classes.escape_node
    Classes.control_char Classes.word_chars Classes.digits Bytes.one_of Regex.add Regex.add_range
    Regex.add_from Regex.union Regex.negate Regex.quantified Quantifier.read_quantifier
    Quantifier.skip_marker Quantifier.read_brace Quantifier.is_count Quantifier.all_count_bytes
    Quantifier.brace_quantity Quantifier.unbounded_brace Quantifier.starts_at_zero
    Quantifier.brace_can_repeat Quantifier.atoi Quantifier.number_from Bytes.split_at
    Summary.fully_anchored Summary.all_anchored Summary.seq_anchored Summary.ends_anchored
    Summary.plain_anchor Summary.all_excluded Summary.fragment_excluded
    Summary.final_line_terminator_can_produce Summary.summarize_alts Summary.alts_from
    Summary.seq_from Summary.summarize_node Summary.or_else Summary.and_then Summary.repeat
    Summary.joins_fragment Summary.char_contains
excluding = anchored_regex_excludes

lower_case_ok : excluding lower_case ((46 ∷ 46 ∷ []) ∷ (47 ∷ []) ∷ []) ≡ true
unfolding excluding
lower_case_ok = refl

lower_case_letter : excluding lower_case ((98 ∷ []) ∷ []) ≡ false
unfolding excluding
lower_case_letter = refl

lower_case_newline : excluding lower_case ((10 ∷ []) ∷ []) ≡ false
unfolding excluding
lower_case_newline = refl

-- In the class, the dot before the hyphen is lost.
dot_hyphen_lost : excluding dot_hyphen ((46 ∷ []) ∷ []) ≡ true
unfolding excluding
dot_hyphen_lost = refl

-- The quantifier is given to the second byte of the letter only.
dotted_lost : excluding dotted ((46 ∷ 46 ∷ []) ∷ []) ≡ true
unfolding excluding
dotted_lost = refl

zeros_lost : excluding zeros ((46 ∷ 46 ∷ []) ∷ []) ≡ true
unfolding excluding
zeros_lost = refl

abbrev letters : List ℕ
letters = 97 ∷ 98 ∷ []

abbrev one_dot : List ℕ
one_dot = 46 ∷ []

anchored_regex_excludes_sound_example : letters ≢ ([] ++ (one_dot ++ []))
unfolding excluding parse_regex Matching.MatchesAlts Matching.holds_at Matching.at_end
    Matching.all_in Matching.in_set Matching.counts Covers.all_ascii
anchored_regex_excludes_sound_example =
    anchored_regex_excludes_sound lower_case (one_dot ∷ []) (or_none_left (parse_regex lower_case))
      one_dot letters [] [] refl refl (Memᴰ.head refl) refl
      (
        [],
        letters,
        [],
        refl,
        inl (
          [],
          letters,
          refl,
          (refl, inr refl),
          (letters, [], refl, (refl, refl), ([], [], refl, (refl, inr refl), refl)),
        ),
      )

parse_alts_total_example : Parse.parse_alts (Parse.enough zeros) zeros ≢ Classes.out_of_fuel
parse_alts_total_example = parse_alts_total zeros

-- `2,5`
abbrev two_to_five : List ℕ
two_to_five = 50 ∷ 44 ∷ 53 ∷ []

brace_quantity-Allows_example : Matching.counts (Quantifier.brace_quantity two_to_five) 3 ≡ true
unfolding excluding
brace_quantity-Allows_example = brace_quantity-Allows two_to_five 3 (
    Counts.between (50 ∷ []) (53 ∷ []) 2 5 refl (refl, λ e. absurd (omega arith))
      (refl, λ e. absurd (omega arith)) (omega arith) (omega arith))
