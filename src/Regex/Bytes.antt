-- ===== src/Regex/Bytes.antt =====
-- The bytes that core/internal/model/regexparse.go names.
use sast_engine.Prelude.{
  ℕ, Bool, true, false, List, [], ◌∷◌, Option, none, some, if◌then◌else◌, nat_eq, ltb, ◌&&◌, not,
}

abbrev pub tab : ℕ
tab = 9

abbrev pub newline : ℕ
newline = 10

abbrev pub vertical_tab : ℕ
vertical_tab = 11

abbrev pub form_feed : ℕ
form_feed = 12

abbrev pub carriage_return : ℕ
carriage_return = 13

abbrev pub bang : ℕ
bang = 33

abbrev pub dollar : ℕ
dollar = 36

abbrev pub open_paren : ℕ
open_paren = 40

abbrev pub close_paren : ℕ
close_paren = 41

abbrev pub star : ℕ
star = 42

abbrev pub plus : ℕ
plus = 43

abbrev pub comma : ℕ
comma = 44

abbrev pub hyphen : ℕ
hyphen = 45

abbrev pub dot : ℕ
dot = 46

abbrev pub slash : ℕ
slash = 47

abbrev pub digit_zero : ℕ
digit_zero = 48

abbrev pub digit_nine : ℕ
digit_nine = 57

abbrev pub colon : ℕ
colon = 58

abbrev pub less : ℕ
less = 60

abbrev pub equals : ℕ
equals = 61

abbrev pub greater : ℕ
greater = 62

abbrev pub question : ℕ
question = 63

abbrev pub open_bracket : ℕ
open_bracket = 91

abbrev pub backslash : ℕ
backslash = 92

abbrev pub close_bracket : ℕ
close_bracket = 93

abbrev pub caret : ℕ
caret = 94

abbrev pub underscore : ℕ
underscore = 95

abbrev pub open_brace : ℕ
open_brace = 123

abbrev pub bar : ℕ
bar = 124

abbrev pub close_brace : ℕ
close_brace = 125

unfoldable pub one_of : List ℕ → ℕ → Bool
one_of [] c = false
one_of (b ∷ bs) c = if nat_eq b c then true else one_of bs c

-- `strings.IndexByte`, which splits the text at the first such byte: what stands before it, and
-- what stands after it
unfoldable pub split_at : ℕ → List ℕ → Option (List ℕ × List ℕ)
split_at b [] = none
split_at b (c ∷ cs) =
    let rest = split_at b cs in
    if nat_eq c b
    then some ([], cs)
    else elim rest [ none ↦ none | some (front, back) ↦ some (c ∷ front, back) ]

abbrev pub is_empty : List ℕ → Bool
is_empty [] = true
is_empty (x ∷ xs) = false

abbrev pub is_digit : ℕ → Bool
is_digit c = not (ltb c digit_zero) && not (ltb digit_nine c)
