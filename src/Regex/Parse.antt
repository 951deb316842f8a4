-- ===== src/Regex/Parse.antt =====
-- core/internal/model/regexparse.go: parseAlts, parseSeq, parseAtom and skipGroupPrefix, on fuel,
-- and parseRegex with the reading of a literal (regexBody, isFlags).
use sast_engine.Prelude.{
  ℕ, zero, suc, ◌+◌, ◌*◌, Bool, true, false, not, ◌||◌, List, [], ◌∷◌, Option, none, some,
  if◌then◌else◌, nat_eq, length,
}
use sast_engine.Regex.{
  no_chars, add_all, without, ReNode, char, group, assertion, Nodes, stop, node, Alts, none_left,
  branch, once, quantified,
}
use sast_engine.Regex.Bytes.{
  newline, bang, dollar, open_paren, close_paren, star, plus, dot, slash, colon, less, equals,
  greater, question, open_bracket, backslash, caret, bar, one_of, split_at, is_empty,
}
use sast_engine.Regex.Classes.{Read, out_of_fuel, refused, read, single, escape_node, parse_class}
use sast_engine.Regex.Quantifier.{read_quantifier}

unfoldable pub after_name : Option (List ℕ × List ℕ) → Option (Bool × List ℕ)
after_name none = none
after_name (some (name, rest)) = some (false, rest)

-- `?<`: a lookbehind, or a name up to `>`
unfoldable pub skip_angle : List ℕ → Option (Bool × List ℕ)
skip_angle [] = none
skip_angle (c ∷ cs) =
    if nat_eq c equals || nat_eq c bang
    then some (true, cs)
    else after_name (split_at greater (c ∷ cs))

-- `skipGroupPrefix`, after the `?`: whether the group matches no input, and what is left
unfoldable pub skip_group_prefix : List ℕ → Option (Bool × List ℕ)
skip_group_prefix [] = none
skip_group_prefix (c ∷ cs) =
    if nat_eq c colon
    then some (false, cs)
    else if nat_eq c equals || nat_eq c bang
    then some (true, cs)
    else if nat_eq c less
    then skip_angle cs
    else if nat_eq c 80
    then after_name (split_at greater cs)
    else none

-- what follows an open parenthesis
unfoldable pub group_prefix : List ℕ → Option (Bool × List ℕ)
group_prefix [] = some (false, [])
group_prefix (c ∷ cs) = if nat_eq c question then skip_group_prefix cs else some (false, c ∷ cs)

unfoldable pub any_char : ReNode
any_char = char (without (add_all no_chars) newline) once

-- the end of a group: the parenthesis, and the node of a lookaround or of a group
unfoldable pub close_group : Bool → Read Alts → Read ReNode
close_group zero_width out_of_fuel = out_of_fuel
close_group zero_width refused = refused
close_group zero_width (read alts []) = refused
close_group zero_width (read alts (c ∷ cs)) =
    if nat_eq c close_paren
    then read (if zero_width then assertion 0 once else group alts once) cs
    else refused

unfoldable pub escape_atom : List ℕ → Read ReNode
escape_atom [] = refused
escape_atom (e ∷ cs) = elim (escape_node e) [ none ↦ refused | some n ↦ read n cs ]

-- the atoms that are no group
unfoldable pub plain_atom : ℕ → List ℕ → Read ReNode
plain_atom c cs =
    if nat_eq c open_bracket
    then parse_class cs
    else if nat_eq c caret || nat_eq c dollar
    then read (assertion c once) cs
    else if nat_eq c dot
    then read any_char cs
    else if nat_eq c backslash
    then escape_atom cs
    else if nat_eq c star || nat_eq c plus || nat_eq c question
    then refused
    else read (single c) cs

-- what stands after a `|` that the text begins with
unfoldable pub after_bar : List ℕ → Option (List ℕ)
after_bar [] = none
after_bar (c ∷ cs) = if nat_eq c bar then some cs else none

-- A sequence ends before `|` and `)`; otherwise it goes on with an atom.
unfoldable pub atom_start : List ℕ → Option (ℕ × List ℕ)
atom_start [] = none
atom_start (c ∷ cs) = if nat_eq c bar || nat_eq c close_paren then none else some (c, cs)

unfoldable pub add_branch : Nodes → Read Alts → Read Alts
add_branch seq out_of_fuel = out_of_fuel
add_branch seq refused = refused
add_branch seq (read alts rest) = read (branch seq alts) rest

unfoldable pub add_node : ReNode → Read Nodes → Read Nodes
add_node n out_of_fuel = out_of_fuel
add_node n refused = refused
add_node n (read seq rest) = read (node n seq) rest

unfoldable mutual
  pub parse_alts : ℕ → List ℕ → Read Alts
  parse_alts zero p = out_of_fuel
  parse_alts (suc fuel) p = elim (parse_seq fuel p) [
    | out_of_fuel ↦ out_of_fuel
    | refused ↦ refused
    | read seq rest ↦ elim (after_bar rest) [
      | none ↦ read (branch seq none_left) rest
      | some rest' ↦ add_branch seq (parse_alts fuel rest')
    ]
  ]

  pub parse_seq : ℕ → List ℕ → Read Nodes
  parse_seq zero p = out_of_fuel
  parse_seq (suc fuel) p = elim (atom_start p) [
    | none ↦ read stop p
    | some (c, cs) ↦ elim (parse_atom fuel c cs) [
      | out_of_fuel ↦ out_of_fuel
      | refused ↦ refused
      | read n rest ↦
          add_node (quantified n (read_quantifier rest).0) (parse_seq fuel (read_quantifier rest).1)
    ]
  ]

  pub parse_atom : ℕ → ℕ → List ℕ → Read ReNode
  parse_atom zero c cs = out_of_fuel
  parse_atom (suc fuel) c cs = elim (nat_eq c open_paren) [
    | false ↦ plain_atom c cs
    | true ↦ elim (group_prefix cs) [
      | none ↦ refused
      | some (zero_width, rest) ↦ close_group zero_width (parse_alts fuel rest)
    ]
  ]

-- Each byte costs at most three calls.
abbrev pub enough : List ℕ → ℕ
enough p = 3 * length p + 3

-- The flags `d`, `g`, `i`, `m`, `s`, `u`, `v` and `y`. Go reads runes: one outside these letters
-- has a byte outside them.
unfoldable pub is_flags : List ℕ → Bool
is_flags [] = true
is_flags (c ∷ cs) =
    if not (one_of (100 ∷ 103 ∷ 105 ∷ 109 ∷ 115 ∷ 117 ∷ 118 ∷ 121 ∷ []) c)
    then false
    else is_flags cs

-- `strings.LastIndexByte`, which splits the text at the last slash
unfoldable pub split_last : List ℕ → Option (List ℕ × List ℕ)
split_last [] = none
split_last (c ∷ cs) = elim (split_last cs) [
  | some (front, back) ↦ some (c ∷ front, back)
  | none ↦ if nat_eq c slash then some ([], cs) else none
]

-- `regexBody`: the pattern between the slashes and its flags; `none` is its answer false
unfoldable pub regex_body : List ℕ → Option (List ℕ × List ℕ)
regex_body [] = some ([], [])
regex_body (c ∷ cs) = if not (nat_eq c slash) then some (c ∷ cs, []) else elim (split_last cs) [
  | none ↦ none
  | some (body, flags) ↦ if is_flags flags then some (body, flags) else none
]

-- what both callers ask of the parser: that it reads the pattern up to its end
unfoldable pub parse_whole : List ℕ → Option Alts
parse_whole p = elim (parse_alts (enough p) p) [
  | out_of_fuel ↦ none
  | refused ↦ none
  | read alts rest ↦ if is_empty rest then some alts else none
]

unfoldable pub parse_regex : List ℕ → Option Alts
parse_regex pattern = elim (regex_body pattern) [
  | none ↦ none
  | some (body, flags) ↦ parse_whole body
]
