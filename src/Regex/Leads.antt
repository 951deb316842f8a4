-- ===== src/Regex/Leads.antt =====
-- The characters that a text of a pattern of core/internal/model/regexparse.go must begin with, after
-- what the pattern may leave out. This is what leadingSet is asked for; it is stated of the pattern and
-- what the pattern matches, apart from the code.
use sast_engine.Prelude.{ℕ, ◌≡◌, ◌⊎◌, Bool, true, false, List, [], ◌++◌}
use sast_engine.Regex.{
  CharSet, Quantity, ReNode, char, group, assertion, Nodes, node, Alts, none_left, branch,
}
use sast_engine.Regex.Matching.{in_set, MatchesNode}

-- a node that may match nothing
abbrev pub may_be_empty : ReNode → Bool
may_be_empty (assertion z q) = true
may_be_empty (char s q) = q.optional
may_be_empty (group alts q) = q.optional

mutual
  -- Some branch can take the text `u` with nodes that may match nothing, each left out or matching, and
  -- then has to take a character, for which `c` will do.
  pub data LeadsAlts : Alts → List ℕ → ℕ → Type 0 where
    first :
        (seq : Nodes) (alts : Alts) (u : List ℕ) (c : ℕ)
        → LeadsSeq seq u c
        → LeadsAlts (branch seq alts) u c
    rest :
        (seq : Nodes) (alts : Alts) (u : List ℕ) (c : ℕ)
        → LeadsAlts alts u c
        → LeadsAlts (branch seq alts) u c

  pub data LeadsSeq : Nodes → List ℕ → ℕ → Type 0 where
    past :
        (n : ReNode) (seq : Nodes) (x u : List ℕ) (c : ℕ)
        → may_be_empty n ≡ true
        → (x ≡ []) ⊎ ((b a : List ℕ) × MatchesNode n b x a)
        → LeadsSeq seq u c
        → LeadsSeq (node n seq) (x ++ u) c
    at_char :
        (s : CharSet) (q : Quantity) (seq : Nodes) (c : ℕ)
        → q.optional ≡ false
        → in_set s c ≡ true
        → LeadsSeq (node (char s q) seq) [] c
    at_group :
        (alts : Alts) (q : Quantity) (seq : Nodes) (u : List ℕ) (c : ℕ)
        → q.optional ≡ false
        → LeadsAlts alts u c
        → LeadsSeq (node (group alts q) seq) u c

mutual
  -- Each branch has a character that it has to take.
  pub data AllLed : Alts → Type 0 where
    no_branch : AllLed none_left
    both : (seq : Nodes) (alts : Alts) → Led seq → AllLed alts → AllLed (branch seq alts)

  pub data Led : Nodes → Type 0 where
    led_past : (n : ReNode) (seq : Nodes) → may_be_empty n ≡ true → Led seq → Led (node n seq)
    led_char :
        (s : CharSet) (q : Quantity) (seq : Nodes) → q.optional ≡ false → Led (node (char s q) seq)
    led_group :
        (alts : Alts) (q : Quantity) (seq : Nodes)
        → q.optional ≡ false
        → AllLed alts
        → Led (node (group alts q) seq)

abbrev pub quantity_of : ReNode → Quantity
quantity_of (assertion z q) = q
quantity_of (char s q) = q
quantity_of (group alts q) = q

mutual
  -- Somewhere inside a node may be repeated without bound.
  pub data Repeats : Alts → Type 0 where
    in_first : (seq : Nodes) (alts : Alts) → RepeatsSeq seq → Repeats (branch seq alts)
    in_rest : (seq : Nodes) (alts : Alts) → Repeats alts → Repeats (branch seq alts)

  pub data RepeatsSeq : Nodes → Type 0 where
    itself : (n : ReNode) (seq : Nodes) → (quantity_of n).unbounded ≡ true → RepeatsSeq (node n seq)
    further : (n : ReNode) (seq : Nodes) → RepeatsSeq seq → RepeatsSeq (node n seq)
    within :
        (alts : Alts) (q : Quantity) (seq : Nodes)
        → Repeats alts
        → RepeatsSeq (node (group alts q) seq)
