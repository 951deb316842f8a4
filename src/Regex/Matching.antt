-- ===== src/Regex/Matching.antt =====
-- What a parsed pattern of core/internal/model/regexparse.go matches: the text that a node takes,
-- between what stands before it and what stands after it. The source has no matcher; this is the
-- language that its summaries speak of.
use sast_engine.Prelude.{
  ℕ, zero, suc, ◌≡◌, ◌⊎◌, Bool, true, false, ◌&&◌, ◌||◌, List, [], ◌∷◌, ◌++◌, if◌then◌else◌, ltb,
  nat_eq, length,
}
use sast_engine.Regex.{
  CharSet, Quantity, ReNode, char, group, assertion, Nodes, stop, node, Alts, none_left, branch,
}
use sast_engine.Regex.Bytes.{newline, carriage_return, caret, dollar, is_empty}

-- A character from 128 on stands for all of them.
unfoldable pub in_set : CharSet → ℕ → Bool
in_set s c = if ltb c 128 then s.ascii c else s.non_ascii

unfoldable pub all_in : CharSet → List ℕ → Bool
all_in s [] = true
all_in s (c ∷ cs) = in_set s c && all_in s cs

-- how many copies a quantifier allows
unfoldable pub counts : Quantity → ℕ → Bool
counts q zero = q.optional
counts q (suc zero) = true
counts q (suc (suc n)) = q.multiple

-- the places where `$` holds: the end, and before a final line terminator
unfoldable pub at_end : List ℕ → Bool
at_end [] = true
at_end (c ∷ []) = nat_eq c newline || nat_eq c carriage_return
at_end (c ∷ d ∷ []) = nat_eq c carriage_return && nat_eq d newline
at_end _ = false

-- what an assertion asks; one that is neither `^` nor `$` may hold anywhere
unfoldable pub holds_at : ℕ → List ℕ → List ℕ → Bool
holds_at z before after =
    if nat_eq z caret then is_empty before else if nat_eq z dollar then at_end after else true

abbrev pub Language : Type 1
Language = List ℕ → List ℕ → List ℕ → Type 0

-- `n` copies in a row
unfoldable pub Copies : Language → ℕ → Language
Copies l zero before text after = text ≡ []
Copies l (suc n) before text after =
    (u v : List ℕ) × (text ≡ u ++ v) × l before u (v ++ after) × Copies l n (before ++ u) v after

unfoldable mutual
  pub MatchesAlts : Alts → List ℕ → List ℕ → List ℕ → Type 0
  MatchesAlts none_left before text after = ⊥
  MatchesAlts (branch seq alts) before text after =
      MatchesSeq seq before text after ⊎ MatchesAlts alts before text after

  pub MatchesSeq : Nodes → List ℕ → List ℕ → List ℕ → Type 0
  MatchesSeq stop before text after = text ≡ []
  MatchesSeq (node n seq) before text after =
      (u v : List ℕ) × (text ≡ u ++ v)
      × MatchesNode n before u (v ++ after)
      × MatchesSeq seq (before ++ u) v after

  pub MatchesNode : ReNode → List ℕ → List ℕ → List ℕ → Type 0
  MatchesNode (assertion z q) before text after =
      (text ≡ []) × ((q.optional ≡ true) ⊎ (holds_at z before after ≡ true))
  MatchesNode (char s q) before text after =
      (all_in s text ≡ true) × (counts q (length text) ≡ true)
  MatchesNode (group alts q) before text after =
      (n : ℕ) × (counts q n ≡ true) × Copies (λ b t a. MatchesAlts alts b t a) n before text after

-- A pattern accepts a text in which it matches somewhere.
abbrev pub Accepts : Alts → List ℕ → Type 0
Accepts alts text =
    (before matched after : List ℕ) × (text ≡ before ++ (matched ++ after))
    × MatchesAlts alts before matched after
