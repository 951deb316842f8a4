-- ===== src/Regex/Adjacent.antt =====
-- core/internal/model/regexparse.go: two repetitions side by side that can claim the same input
-- (adjacentAmbiguity, containsUnbounded, leadingSet, and the questions they ask of sets).
use sast_engine.Prelude.{
  ℕ, zero, suc, Bool, true, false, not, ◌&&◌, ◌||◌, List, Option, none, some, if◌then◌else◌,
}
use sast_engine.Regex.{
  CharSet, no_chars, union, ReNode, char, group, assertion, Nodes, stop, node, Alts, none_left,
  branch,
}
use sast_engine.Regex.Parse.{parse_regex}

-- the loops over the bitmap: some place below `n` passes the test
unfoldable pub any_below : ℕ → (ℕ → Bool) → Bool
any_below zero p = false
any_below (suc n) p = if p n then true else any_below n p

unfoldable pub empty : CharSet → Bool
empty s = if s.non_ascii then false else not (any_below 128 s.ascii)

unfoldable pub overlaps : CharSet → CharSet → Bool
overlaps s o =
    if s.non_ascii && o.non_ascii then true else any_below 128 (λ c. s.ascii c && o.ascii c)

unfoldable mutual
  -- containsUnbounded
  pub contains_unbounded : Alts → Bool
  contains_unbounded none_left = false
  contains_unbounded (branch seq alts) = seq_unbounded seq || contains_unbounded alts

  pub seq_unbounded : Nodes → Bool
  seq_unbounded stop = false
  seq_unbounded (node n seq) = node_unbounded n || seq_unbounded seq

  pub node_unbounded : ReNode → Bool
  node_unbounded (char s q) = q.unbounded
  node_unbounded (assertion z q) = q.unbounded
  node_unbounded (group alts q) = q.unbounded || contains_unbounded alts

abbrev pub union_with : CharSet → Option CharSet → Option CharSet
union_with out none = none
union_with out (some inner) = some (union out inner)

unfoldable mutual
  -- leadingSet, after the branches whose characters are in `out`; `none` is its answer false
  pub leading_from : CharSet → Alts → Option CharSet
  leading_from out none_left = some out
  leading_from out (branch seq alts) = elim (leading_seq out seq) [
    | none ↦ none
    | some out' ↦ leading_from out' alts
  ]

  -- one branch: nodes that may match nothing are passed over
  pub leading_seq : CharSet → Nodes → Option CharSet
  leading_seq out stop = none
  leading_seq out (node (assertion z q) seq) = leading_seq out seq
  leading_seq out (node (char s q) seq) =
      let rest = leading_seq out seq in if q.optional then rest else some (union out s)
  leading_seq out (node (group alts q) seq) =
      let rest = leading_seq out seq in
      if q.optional then rest else union_with out (leading_from no_chars alts)

unfoldable pub leading_set : Alts → Option CharSet
leading_set alts = leading_from no_chars alts

-- the tests on a node and the one after it
unfoldable pub competes : ReNode → ReNode → Bool
competes (char s q) (group alts q') =
    if not q.unbounded
    then false
    else if not q'.unbounded || not (contains_unbounded alts)
    then false
    else elim (leading_set alts) [
      | none ↦ false
      | some marker ↦ if empty marker then false else overlaps s marker
    ]
competes left right = false

unfoldable pub competes_with_next : ReNode → Nodes → Bool
competes_with_next left stop = false
competes_with_next left (node right seq) = competes left right

unfoldable mutual
  -- seqHasAdjacentAmbiguity
  pub seq_has_adjacent_ambiguity : Nodes → Bool
  seq_has_adjacent_ambiguity stop = false
  seq_has_adjacent_ambiguity (node n seq) =
      let rest = seq_has_adjacent_ambiguity seq in
      let inner = inner_ambiguity n in
      if inner then true else if competes_with_next n seq then true else rest

  pub inner_ambiguity : ReNode → Bool
  inner_ambiguity (group alts q) = alts_have_adjacent_ambiguity alts
  inner_ambiguity (char s q) = false
  inner_ambiguity (assertion z q) = false

  pub alts_have_adjacent_ambiguity : Alts → Bool
  alts_have_adjacent_ambiguity none_left = false
  alts_have_adjacent_ambiguity (branch seq alts) =
      let rest = alts_have_adjacent_ambiguity alts in
      if seq_has_adjacent_ambiguity seq then true else rest

unfoldable pub adjacent_ambiguity : List ℕ → Bool
adjacent_ambiguity pattern = elim (parse_regex pattern) [
  | none ↦ false
  | some alts ↦ alts_have_adjacent_ambiguity alts
]
