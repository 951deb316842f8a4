-- ===== src/Regex/Summary.antt =====
-- core/internal/model/regexparse.go: summaries of patterns and AnchoredRegexExcludes.
use sast_engine.Prelude.{
  ℕ, Bool, true, false, not, ◌&&◌, ◌||◌, List, [], ◌∷◌, none, some, if◌then◌else◌, nat_eq,
}
use sast_engine.Regex.{
  CharSet, no_chars, union, Quantity, ReNode, char, group, assertion, Nodes, stop, node, Alts,
  none_left, branch,
}
use sast_engine.Regex.Bytes.{newline, carriage_return, caret, dollar, is_empty}
use sast_engine.Regex.Parse.{regex_body, parse_whole}

-- `regexSummary`
pub record Summary : Type 0 where
  pub nullable : Bool
  pub first : CharSet
  pub last : CharSet
  pub contains : Bool

abbrev pub nothing : Summary
nothing = record { nullable = false; first = no_chars; last = no_chars; contains = false }

abbrev pub empty_text : Summary
empty_text = record { nullable = true; first = no_chars; last = no_chars; contains = false }

-- A fragment that is not of two bytes is never joined.
unfoldable pub joins_fragment : CharSet → CharSet → List ℕ → Bool
joins_fragment left right (a ∷ b ∷ []) = left.ascii a && right.ascii b
joins_fragment left right _ = false

-- the body of the loop of summarizeAlts
unfoldable pub or_else : Summary → Summary → Summary
or_else out s = record {
  nullable = out.nullable || s.nullable;
  first = union out.first s.first;
  last = union out.last s.last;
  contains = out.contains || s.contains;
}

abbrev pub union_if : Bool → CharSet → CharSet → CharSet
union_if true s o = union s o
union_if false s o = s

-- the body of the loop of summarizeSeq
unfoldable pub and_then : List ℕ → Summary → Summary → Summary
and_then fragment out right = record {
  nullable = out.nullable && right.nullable;
  first = union_if out.nullable out.first right.first;
  last = union_if right.nullable right.last out.last;
  contains = out.contains || right.contains || joins_fragment out.last right.first fragment;
}

-- `contains` of a character; with no byte or more than two in the fragment only joining counts
unfoldable pub char_contains : CharSet → Bool → List ℕ → Bool
char_contains set multiple (a ∷ []) = set.ascii a
char_contains set multiple fragment = if multiple then joins_fragment set set fragment else false

-- what the quantifier of a group adds
unfoldable pub repeat : List ℕ → Quantity → Summary → Summary
repeat fragment q s = record s {
  nullable = s.nullable || q.optional;
  contains = if q.multiple && joins_fragment s.last s.first fragment then true else s.contains;
}

unfoldable mutual
  -- summarizeAlts, after the alternatives that `out` sums up
  pub alts_from : List ℕ → Summary → Alts → Summary
  alts_from fragment out none_left = out
  alts_from fragment out (branch seq alts) =
      alts_from fragment (or_else out (seq_from fragment empty_text seq)) alts

  -- summarizeSeq, after the nodes that `out` sums up
  pub seq_from : List ℕ → Summary → Nodes → Summary
  seq_from fragment out stop = out
  seq_from fragment out (node n seq) =
      seq_from fragment (and_then fragment out (summarize_node fragment n)) seq

  pub summarize_node : List ℕ → ReNode → Summary
  summarize_node fragment (assertion z q) = empty_text
  summarize_node fragment (char set q) = record {
    nullable = q.optional;
    first = set;
    last = set;
    contains = char_contains set q.multiple fragment;
  }
  summarize_node fragment (group alts q) = repeat fragment q (alts_from fragment nothing alts)

unfoldable pub summarize_alts : List ℕ → Alts → Summary
summarize_alts fragment alts = alts_from fragment nothing alts

-- `finalLineTerminatorCanProduce`: the loop over "\n", "\r" and "\r\n" written out
unfoldable pub final_line_terminator_can_produce : Summary → List ℕ → Bool
final_line_terminator_can_produce s [] = true
final_line_terminator_can_produce s (a ∷ []) = nat_eq a newline || nat_eq a carriage_return
final_line_terminator_can_produce s (a ∷ b ∷ []) =
    (s.last.ascii a && (nat_eq b newline || nat_eq b carriage_return))
    || (nat_eq a carriage_return && nat_eq b newline)
final_line_terminator_can_produce s _ = false

unfoldable pub plain_anchor : ReNode → ℕ → Bool
plain_anchor (assertion z q) want =
    nat_eq z want && not q.optional && not q.multiple && not q.unbounded
plain_anchor _ want = false

-- the last node of a sequence is a plain `$`
unfoldable pub ends_anchored : Nodes → Bool
ends_anchored stop = false
ends_anchored (node n stop) = plain_anchor n dollar
ends_anchored (node n seq) = ends_anchored seq

-- the test of fullyAnchored on one alternative, which has two nodes or more
unfoldable pub seq_anchored : Nodes → Bool
seq_anchored stop = false
seq_anchored (node n stop) = false
seq_anchored (node n seq) = plain_anchor n caret && ends_anchored seq

unfoldable pub all_anchored : Alts → Bool
all_anchored none_left = true
all_anchored (branch seq alts) = if not (seq_anchored seq) then false else all_anchored alts

unfoldable pub fully_anchored : Alts → Bool
fully_anchored none_left = false
fully_anchored alts = all_anchored alts

-- the body of the loop over the forbidden fragments
unfoldable pub fragment_excluded : Alts → List ℕ → Bool
fragment_excluded alts [] = false
fragment_excluded alts (a ∷ b ∷ c ∷ rest) = false
fragment_excluded alts fragment =
    let s = summarize_alts fragment alts in
    not (s.contains || final_line_terminator_can_produce s fragment)

unfoldable pub all_excluded : Alts → List (List ℕ) → Bool
all_excluded alts [] = true
all_excluded alts (fragment ∷ forbidden) =
    if not (fragment_excluded alts fragment) then false else all_excluded alts forbidden

-- `AnchoredRegexExcludes`
unfoldable pub anchored_regex_excludes : List ℕ → List (List ℕ) → Bool
anchored_regex_excludes pattern forbidden = elim (regex_body pattern) [
  | none ↦ false
  | some (body, flags) ↦ if not (is_empty flags) then false else elim (parse_whole body) [
    | none ↦ false
    | some alts ↦ if not (fully_anchored alts) then false else all_excluded alts forbidden
  ]
]
