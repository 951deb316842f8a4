-- ===== src/Regex/Quantifier.antt =====
-- core/internal/model/regexparse.go: readQuantifier, and unboundedBrace of redos.go.
use sast_engine.Prelude.{
  ℕ, ◌+◌, ◌-◌, ◌*◌, Bool, true, false, not, ◌&&◌, ◌||◌, List, [], ◌∷◌, Option, none, some,
  if◌then◌else◌, leb, nat_eq, length,
}
use sast_engine.Regex.{Quantity, once}
use sast_engine.Regex.Bytes.{
  star, plus, question, open_brace, close_brace, comma, digit_zero, split_at, is_digit, is_empty,
}

-- the greatest int, `1<<63 - 1`
abbrev pub max_int : ℕ
max_int = 9223372036854775807

-- the value of a text of digits, starting with the value of those before it
unfoldable pub number_from : ℕ → List ℕ → Option ℕ
number_from n [] = some n
number_from n (c ∷ cs) = if is_digit c then number_from (n * 10 + (c - digit_zero)) cs else none

-- `strconv.Atoi`, on texts without a sign; `none` is its error
unfoldable pub atoi : List ℕ → Option ℕ
atoi [] = none
atoi (c ∷ cs) = elim (number_from 0 (c ∷ cs)) [
  | none ↦ none
  | some n ↦ if leb n max_int then some n else none
]

unfoldable pub all_count_bytes : List ℕ → Bool
all_count_bytes [] = true
all_count_bytes (c ∷ cs) =
    if not (nat_eq c comma) && not (is_digit c) then false else all_count_bytes cs

unfoldable pub is_count : List ℕ → Bool
is_count [] = false
is_count (c ∷ cs) = all_count_bytes (c ∷ cs)

abbrev pub at_least_two : Option ℕ → Bool
at_least_two none = false
at_least_two (some n) = leb 2 n

unfoldable pub brace_can_repeat : List ℕ → Bool
brace_can_repeat body = elim (split_at comma body) [
  | none ↦ at_least_two (atoi body)
  | some (lo, hi) ↦ if is_empty hi then true else at_least_two (atoi hi)
]

-- the part of unboundedBrace that reads the text between the braces
unfoldable pub unbounded_brace : List ℕ → Bool
unbounded_brace body = elim (split_at comma body) [
  | none ↦ false
  | some (lo, hi) ↦ if is_empty hi then true else leb 2 (length hi)
]

-- `body == "0"`, or `body` begins with `0,`
unfoldable pub starts_at_zero : List ℕ → Bool
starts_at_zero [] = false
starts_at_zero (c ∷ []) = nat_eq c digit_zero
starts_at_zero (c ∷ d ∷ cs) = nat_eq c digit_zero && nat_eq d comma

-- a marker after a quantifier, which is passed over
unfoldable pub skip_marker : List ℕ → List ℕ
skip_marker [] = []
skip_marker (c ∷ cs) = if nat_eq c question || nat_eq c plus then cs else c ∷ cs

-- what is read between `{` and `}`
unfoldable pub brace_quantity : List ℕ → Quantity
brace_quantity body = record {
  unbounded = unbounded_brace body;
  optional = starts_at_zero body;
  multiple = brace_can_repeat body;
}

-- what follows `{`; without a count, the brace is a character and nothing is read
unfoldable pub read_brace : List ℕ → Quantity × List ℕ
read_brace cs = elim (split_at close_brace cs) [
  | none ↦ (once, open_brace ∷ cs)
  | some (body, rest) ↦
      if is_count body then (brace_quantity body, skip_marker rest) else (once, open_brace ∷ cs)
]

-- `readQuantifier`: what the node is given, and what is left of the pattern
unfoldable pub read_quantifier : List ℕ → Quantity × List ℕ
read_quantifier [] = (once, [])
read_quantifier (c ∷ cs) =
    if nat_eq c star
    then (record { unbounded = true; optional = true; multiple = true }, skip_marker cs)
    else if nat_eq c plus
    then (record { unbounded = true; optional = false; multiple = true }, skip_marker cs)
    else if nat_eq c question
    then (record { unbounded = false; optional = true; multiple = false }, skip_marker cs)
    else if nat_eq c open_brace
    then read_brace cs
    else (once, c ∷ cs)
