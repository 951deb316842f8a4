-- ===== src/Regex/Classes.antt =====
-- core/internal/model/regexparse.go: escapes and classes (escapeNode, classAtom, parseClass).
use sast_engine.Prelude.{
  ℕ, zero, suc, Bool, true, false, not, ◌&&◌, ◌||◌, List, [], ◌∷◌, Option, none, some,
  if◌then◌else◌, ltb, nat_eq, length,
}
use sast_engine.Regex.{
  CharSet, no_chars, add, add_range, add_each, negate, union, ReNode, char, assertion, once,
}
use sast_engine.Regex.Bytes.{
  tab, newline, vertical_tab, form_feed, carriage_return, backslash, close_bracket, caret, hyphen,
  underscore, digit_zero, digit_nine, one_of, is_digit,
}

-- The answers of a reader: the pattern is refused, something is read and the rest is left, or the
-- fuel has run out.
pub data Read {ℓ} (A : Type ℓ) : Type ℓ where
  out_of_fuel : Read A
  refused : Read A
  read : A → List ℕ → Read A

-- the letters of `\d`, `\w`, `\s` and of their opposites
abbrev digit_letters : List ℕ
digit_letters = 100 ∷ 68 ∷ []

abbrev word_letters : List ℕ
word_letters = 119 ∷ 87 ∷ []

abbrev space_letters : List ℕ
space_letters = 115 ∷ 83 ∷ []

abbrev negated_letters : List ℕ
negated_letters = 68 ∷ 87 ∷ 83 ∷ []

abbrev shorthand_letters : List ℕ
shorthand_letters = 100 ∷ 68 ∷ 119 ∷ 87 ∷ 115 ∷ 83 ∷ []

-- the letters of `\b`, `\B`, `\A`, `\Z`, `\z` and `\G`
abbrev assertion_letters : List ℕ
assertion_letters = 98 ∷ 66 ∷ 65 ∷ 90 ∷ 122 ∷ 71 ∷ []

-- the letters of `\x`, `\u`, `\c`, `\p` and `\P`
abbrev numeric_letters : List ℕ
numeric_letters = 120 ∷ 117 ∷ 99 ∷ 112 ∷ 80 ∷ []

-- the control characters of `\n`, `\r`, `\t`, `\f` and `\v`
unfoldable pub control_char : ℕ → Option ℕ
control_char e =
    if nat_eq e 110
    then some newline
    else if nat_eq e 114
    then some carriage_return
    else if nat_eq e 116
    then some tab
    else if nat_eq e 102
    then some form_feed
    else if nat_eq e 118
    then some vertical_tab
    else none

unfoldable pub spaces : CharSet
spaces =
    record (add_each no_chars
      (32 ∷ tab ∷ newline ∷ carriage_return ∷ form_feed ∷ vertical_tab ∷ [])) { non_ascii = true }

unfoldable pub digits : CharSet
digits = add_range no_chars digit_zero digit_nine

unfoldable pub word_chars : CharSet
word_chars =
    add (add_range (add_range (add_range no_chars 97 122) 65 90) digit_zero digit_nine) underscore

abbrev pub negate_if : Bool → CharSet → CharSet
negate_if true s = negate s
negate_if false s = s

-- what a shorthand escape stands for; `none` for the other escapes
unfoldable pub shorthand : ℕ → Option CharSet
shorthand e =
    if one_of digit_letters e
    then some (negate_if (one_of negated_letters e) digits)
    else if one_of word_letters e
    then some (negate_if (one_of negated_letters e) word_chars)
    else if one_of space_letters e
    then some (negate_if (one_of negated_letters e) spaces)
    else none

abbrev pub single : ℕ → ReNode
single c = char (add no_chars c) once

-- `escapeNode`; `none` is its answer false
unfoldable pub escape_node : ℕ → Option ReNode
escape_node e = elim (shorthand e) [
  | some s ↦ some (char s once)
  | none ↦ if one_of assertion_letters e then some (assertion 0 once) else elim (control_char e) [
    | some c ↦ some (single c)
    | none ↦
        if one_of numeric_letters e || nat_eq e 107
        then none
        else if is_digit e
        then none
        else some (single e)
  ]
]

-- a member of a class: one character, or a shorthand escape by its letter
pub data Member : Type 0 where
  one : ℕ → Member
  many : ℕ → Member

-- the escape in a class of the letter `e`
unfoldable pub class_escape : ℕ → Option Member
class_escape e = if one_of shorthand_letters e then some (many e) else elim (control_char e) [
  | some c ↦ some (one c)
  | none ↦
      if nat_eq e 98
      then some (one 8)
      else if one_of numeric_letters e || nat_eq e digit_zero
      then none
      else some (one e)
]

-- `classAtom`: the member, and what is left after its width
unfoldable pub class_atom : List ℕ → Option (Member × List ℕ)
class_atom [] = none
class_atom (c ∷ []) = if not (nat_eq c backslash) then some (one c, []) else none
class_atom (c ∷ e ∷ cs) =
    if not (nat_eq c backslash)
    then some (one c, e ∷ cs)
    else elim (class_escape e) [ none ↦ none | some a ↦ some (a, cs) ]

-- What follows a character of a class: the end of a range, if a hyphen and a character stand there.
pub data RangeEnd : Type 0 where
  no_range : RangeEnd
  lone_hyphen : List ℕ → RangeEnd
  upto : ℕ → List ℕ → RangeEnd

unfoldable pub range_end : List ℕ → RangeEnd
range_end [] = no_range
range_end (c ∷ []) = no_range
range_end (c ∷ d ∷ cs) =
    if nat_eq c hyphen && not (nat_eq d close_bracket)
    then elim (class_atom (d ∷ cs)) [
      | none ↦ lone_hyphen (d ∷ cs)
      | some (many e, rest) ↦ lone_hyphen (d ∷ cs)
      | some (one hi, rest) ↦ upto hi rest
    ]
    else no_range

-- the loop of parseClass, on fuel
unfoldable pub class_loop : ℕ → Bool → Bool → CharSet → List ℕ → Read ReNode
class_loop zero negated first s p = out_of_fuel
class_loop (suc fuel) negated first s [] = refused
class_loop (suc fuel) negated first s (c ∷ cs) =
    if nat_eq c close_bracket && not first
    then read (char (negate_if negated s) once) cs
    else elim (class_atom (c ∷ cs)) [
      | none ↦ refused
      | some (many e, rest) ↦ elim (shorthand e) [
        | none ↦ refused
        | some set ↦ class_loop fuel negated false (union s set) rest
      ]
      | some (one lo, rest) ↦ elim (range_end rest) [
        | no_range ↦ class_loop fuel negated false (add s lo) rest
        | lone_hyphen rest' ↦ class_loop fuel negated false (add s hyphen) rest'
        | upto hi rest' ↦ elim (ltb hi lo) [
          | true ↦ refused
          | false ↦ class_loop fuel negated false (add_range s lo hi) rest'
        ]
      ]
    ]

-- `parseClass`, after the bracket
unfoldable pub parse_class : List ℕ → Read ReNode
parse_class [] = class_loop 1 false true no_chars []
parse_class (c ∷ cs) =
    if nat_eq c caret
    then class_loop (suc (length cs)) true true no_chars cs
    else class_loop (suc (length (c ∷ cs))) false true no_chars (c ∷ cs)
