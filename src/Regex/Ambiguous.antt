-- ===== src/Regex/Ambiguous.antt =====
-- core/internal/model/regexparse.go: the shape that adjacentAmbiguity reports.
use sast_engine.Prelude.{ℕ, ◌≡◌, inl, inr, true, List, Bool-cases, arith}
use sast_engine.Regex.{
  CharSet, Quantity, ReNode, char, group, assertion, Nodes, stop, node, Alts, none_left, branch,
}
use sast_engine.Regex.Matching.{in_set}
use sast_engine.Regex.Adjacent.{
  competes, competes_with_next, seq_has_adjacent_ambiguity, inner_ambiguity,
  alts_have_adjacent_ambiguity,
}
use sast_engine.Regex.Leads.{LeadsAlts, AllLed, Repeats}

-- Two nodes stand next to one another, in a sequence or inside one of its groups.
mutual
  pub data SideBySide (l r : ReNode) : Nodes → Type 0 where
    here : (seq : Nodes) → SideBySide l r (node l (node r seq))
    later : (n : ReNode) (seq : Nodes) → SideBySide l r seq → SideBySide l r (node n seq)
    inside :
        (alts : Alts) (q : Quantity) (seq : Nodes)
        → InBranch l r alts
        → SideBySide l r (node (group alts q) seq)

  pub data InBranch (l r : ReNode) : Alts → Type 0 where
    first : (seq : Nodes) (alts : Alts) → SideBySide l r seq → InBranch l r (branch seq alts)
    rest : (seq : Nodes) (alts : Alts) → InBranch l r alts → InBranch l r (branch seq alts)

-- A set of characters that is repeated without bound, before a group that is repeated without bound, has
-- a repetition inside, and in each branch has a character that it has to take; and the set has one that
-- will do for the first such character of a branch.
pub data Shares : ReNode → ReNode → Type 0 where
  shares :
      (s : CharSet) (q : Quantity) (alts : Alts) (q' : Quantity) (u : List ℕ) (c : ℕ)
      → q.unbounded ≡ true
      → q'.unbounded ≡ true
      → Repeats alts
      → AllLed alts
      → in_set s c ≡ true
      → LeadsAlts alts u c
      → Shares (char s q) (group alts q')

-- two nodes that compete stand next to one another
abbrev Found : ((ReNode → ReNode → Type 0)) → Type 0
Found at = (l r : ReNode) × at l r × (competes l r ≡ true)

next_sound :
    (n : ReNode) (seq : Nodes)
    → competes_with_next n seq ≡ true
    → Found (λ l r. SideBySide l r (node n seq))
unfolding competes_with_next
next_sound n stop e = absurd (ground arith)
next_sound n (node r seq) e = (n, r, here seq, e)

mutual
  unfolding seq_has_adjacent_ambiguity inner_ambiguity alts_have_adjacent_ambiguity
      competes_with_next

  seq_sound :
      (seq : Nodes) → seq_has_adjacent_ambiguity seq ≡ true → Found (λ l r. SideBySide l r seq)
  seq_sound stop e = absurd (ground arith)
  seq_sound (node n seq) e = elim (Bool-cases (inner_ambiguity n)) [
    | inl y ↦ inner_sound n seq y
    | inr o ↦ elim (Bool-cases (competes_with_next n seq)) [
      | inl y ↦ next_sound n seq y
      | inr o' ↦ let (l, r, s, c) = seq_sound seq (ground arith) in (l, r, later n seq s, c)
    ]
  ]

  inner_sound :
      (n : ReNode) (seq : Nodes)
      → inner_ambiguity n ≡ true
      → Found (λ l r. SideBySide l r (node n seq))
  inner_sound (group alts q) seq e =
      let (l, r, i, c) = alts_sound alts e in (l, r, inside alts q seq i, c)
  inner_sound (char s q) seq e = absurd (ground arith)
  inner_sound (assertion z q) seq e = absurd (ground arith)

  alts_sound :
      (alts : Alts) → alts_have_adjacent_ambiguity alts ≡ true → Found (λ l r. InBranch l r alts)
  alts_sound none_left e = absurd (ground arith)
  alts_sound (branch seq alts) e = elim (Bool-cases (seq_has_adjacent_ambiguity seq)) [
    | inl y ↦ let (l, r, s, c) = seq_sound seq y in (l, r, first seq alts s, c)
    | inr n ↦ let (l, r, s, c) = alts_sound alts (ground arith) in (l, r, rest seq alts s, c)
  ]

mutual
  unfolding seq_has_adjacent_ambiguity inner_ambiguity alts_have_adjacent_ambiguity
      competes_with_next

  seq_complete :
      (l r : ReNode) {seq : Nodes}
      → competes l r ≡ true
      → SideBySide l r seq
      → seq_has_adjacent_ambiguity seq ≡ true
  seq_complete l r c (here seq) = ground arith
  seq_complete l r c (later n seq s) = ground (arith, seq_complete l r c s)
  seq_complete l r c (inside alts q seq i) = ground (arith, alts_complete l r c i)

  alts_complete :
      (l r : ReNode) {alts : Alts}
      → competes l r ≡ true
      → InBranch l r alts
      → alts_have_adjacent_ambiguity alts ≡ true
  alts_complete l r c (first seq alts s) = ground (arith, seq_complete l r c s)
  alts_complete l r c (rest seq alts i) = ground (arith, alts_complete l r c i)
