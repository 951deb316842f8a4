-- ===== src/Regex/Excludes.antt =====
-- core/internal/model/regexparse.go: what AnchoredRegexExcludes answers holds of every text that
-- the pattern accepts.
use sast_engine.Prelude.{
  ℕ, ◌≡◌, ◌≢◌, refl, sym, ap, subst, inl, inr, true, false, ◌&&◌, ◌||◌, List, [], ◌∷◌, ◌++◌, some,
  arith,
}
use mathlib.Core.List.{Memᴰ}
use sast_engine.Regex.{ReNode, char, group, assertion, Nodes, stop, node, Alts, none_left, branch}
use sast_engine.Regex.Bytes.{is_empty, caret, dollar, one_of}
use sast_engine.Regex.Parse.{parse_regex}
use sast_engine.Regex.Summary.{
  Summary, summarize_alts, plain_anchor, ends_anchored, seq_anchored, all_anchored, fully_anchored,
  fragment_excluded, all_excluded, anchored_regex_excludes, final_line_terminator_can_produce,
}
use sast_engine.Regex.Matching.{MatchesAlts, MatchesSeq, MatchesNode, Accepts, at_end, holds_at}
use sast_engine.Regex.Words.{has, has-append, right_start, in_left, starts, pair}
use sast_engine.Regex.Covers.{Covers, all_ascii}
use sast_engine.Regex.Sound.{summarize_alts-Covers}

-- a plain `^` matches at the beginning only
caret_lem :
    (n : ReNode) (b w a : List ℕ)
    → plain_anchor n caret ≡ true
    → MatchesNode n b w a
    → is_empty b ≡ true
unfolding plain_anchor MatchesNode holds_at
caret_lem (assertion z q) b w a h (e, inl o) = absurd (ground arith)
caret_lem (assertion z q) b w a h (e, inr o) = ground arith
caret_lem (char s q) b w a h m = absurd (ground arith)
caret_lem (group alts q) b w a h m = absurd (ground arith)

-- a plain `$` matches at the end only
dollar_lem :
    (n : ReNode) (b w a : List ℕ)
    → plain_anchor n dollar ≡ true
    → MatchesNode n b w a
    → at_end a ≡ true
unfolding plain_anchor MatchesNode holds_at
dollar_lem (assertion z q) b w a h (e, inl o) = absurd (ground arith)
dollar_lem (assertion z q) b w a h (e, inr o) = ground arith
dollar_lem (char s q) b w a h m = absurd (ground arith)
dollar_lem (group alts q) b w a h m = absurd (ground arith)

ends_anchored_lem :
    (seq : Nodes) (b w a : List ℕ)
    → ends_anchored seq ≡ true
    → MatchesSeq seq b w a
    → at_end a ≡ true
unfolding ends_anchored MatchesSeq
ends_anchored_lem stop b w a h m = absurd (ground arith)
ends_anchored_lem (node n stop) b w a h (u, v, e, m, ms) =
    dollar_lem n b u a h (subst (MatchesNode n b u) (ap (λ x. x ++ a) ms) m)
ends_anchored_lem (node n (node n' seq)) b w a h (u, v, e, m, ms) =
    ends_anchored_lem (node n' seq) (b ++ u) v a h ms

seq_anchored_lem :
    (seq : Nodes) (b w a : List ℕ)
    → seq_anchored seq ≡ true
    → MatchesSeq seq b w a
    → (is_empty b ≡ true) × (at_end a ≡ true)
unfolding seq_anchored MatchesSeq
seq_anchored_lem stop b w a h m = absurd (ground arith)
seq_anchored_lem (node n stop) b w a h m = absurd (ground arith)
seq_anchored_lem (node n (node n' seq)) b w a h (u, v, e, m, ms) = (
  caret_lem n b u (v ++ a) (ground arith) m,
  ends_anchored_lem (node n' seq) (b ++ u) v a (ground arith) ms,
)

all_anchored_lem :
    (alts : Alts) (b w a : List ℕ)
    → all_anchored alts ≡ true
    → MatchesAlts alts b w a
    → (is_empty b ≡ true) × (at_end a ≡ true)
unfolding all_anchored MatchesAlts
all_anchored_lem none_left b w a h m = elim m [ ]
all_anchored_lem (branch seq alts) b w a h (inl m) = seq_anchored_lem seq b w a (ground arith) m
all_anchored_lem (branch seq alts) b w a h (inr m) = all_anchored_lem alts b w a (ground arith) m

fully_anchored_lem : (alts : Alts) → fully_anchored alts ≡ true → all_anchored alts ≡ true
unfolding fully_anchored
fully_anchored_lem none_left h = absurd (ground arith)
fully_anchored_lem (branch seq alts) h = h

-- what a final line terminator can add to a text
ending :
    (s : Summary) (f a : List ℕ)
    → final_line_terminator_can_produce s f ≡ false
    → at_end a ≡ true
    → (has f a || (in_left f s.last && right_start f a)) ≡ false
unfolding final_line_terminator_can_produce at_end has in_left right_start one_of pair starts
ending s [] a h e = absurd (ground arith)
ending s (x ∷ []) [] h e = ground arith
ending s (x ∷ []) (c ∷ []) h e = ground arith
ending s (x ∷ []) (c ∷ d ∷ []) h e = ground arith
ending s (x ∷ []) (c ∷ d ∷ d' ∷ a) h e = absurd (ground arith)
ending s (x ∷ y ∷ []) [] h e = ground arith
ending s (x ∷ y ∷ []) (c ∷ []) h e = ground arith
ending s (x ∷ y ∷ []) (c ∷ d ∷ []) h e = ground arith
ending s (x ∷ y ∷ []) (c ∷ d ∷ d' ∷ a) h e = absurd (ground arith)
ending s (x ∷ y ∷ z ∷ f) a h e = refl

-- the end of the line cannot bring a fragment that is not excluded
terminator_lem :
    (s : Summary) (f w a : List ℕ)
    → Covers f s w
    → final_line_terminator_can_produce s f ≡ false
    → s.contains ≡ false
    → at_end a ≡ true
    → has f (w ++ a) ≡ false
terminator_lem s f w a c h n e =
    ground (arith, has-append f w a, c.contains, c.last, ending s f a h e)

excluded_lem :
    (alts : Alts) (f : List ℕ)
    → fragment_excluded alts f ≡ true
    → (has f f ≡ true)
      × ((summarize_alts f alts).contains ≡ false)
      × (final_line_terminator_can_produce (summarize_alts f alts) f ≡ false)
unfolding fragment_excluded has one_of pair starts
excluded_lem alts [] h = absurd (ground arith)
excluded_lem alts (x ∷ []) h = ground arith
excluded_lem alts (x ∷ y ∷ []) h = ground arith
excluded_lem alts (x ∷ y ∷ z ∷ f) h = absurd (ground arith)

all_excluded_lem :
    (alts : Alts) (forbidden : List (List ℕ)) (f : List ℕ)
    → all_excluded alts forbidden ≡ true
    → Memᴰ f forbidden
    → fragment_excluded alts f ≡ true
unfolding all_excluded
all_excluded_lem alts [] f h m = elim m [ ]
all_excluded_lem alts (g ∷ forbidden) f h (Memᴰ.head e) =
    let h' : fragment_excluded alts g ≡ true = ground arith in rw e h'
all_excluded_lem alts (g ∷ forbidden) f h (Memᴰ.tail m) =
    all_excluded_lem alts forbidden f (ground arith) m

-- What the answer true rests on.
answer_lem :
    (pattern : List ℕ) (forbidden : List (List ℕ)) (alts : Alts)
    → anchored_regex_excludes pattern forbidden ≡ true
    → parse_regex pattern ≡ some alts
    → (fully_anchored alts ≡ true) × (all_excluded alts forbidden ≡ true)
unfolding anchored_regex_excludes parse_regex
answer_lem pattern forbidden alts h p = ground arith

is_empty_lem : (w : List ℕ) → is_empty w ≡ true → w ≡ []
is_empty_lem [] e = refl
is_empty_lem (c ∷ w) e = absurd (ground arith)

-- If AnchoredRegexExcludes answers true, then no text that the parsed pattern accepts has one of the
-- forbidden fragments in it, for fragments of ASCII bytes.
pub anchored_regex_excludes_sound :
    (pattern : List ℕ) (forbidden : List (List ℕ)) (alts : Alts) (fragment text front back : List ℕ)
    → anchored_regex_excludes pattern forbidden ≡ true
    → parse_regex pattern ≡ some alts
    → Memᴰ fragment forbidden
    → all_ascii fragment ≡ true
    → Accepts alts text
    → text ≢ (front ++ (fragment ++ back))
anchored_regex_excludes_sound pattern forbidden alts f text front back h p m ascii
      (b, w, a, e, match) =
    λ q.
      let whole : has f text ≡ true = subst (λ x. has f x ≡ true) (sym q) there in
      let part : has f text ≡ false = subst (λ x. has f x ≡ false) (sym e) inside in
      absurd (ground arith)
  where
    answer : (fully_anchored alts ≡ true) × (all_excluded alts forbidden ≡ true)
    answer = answer_lem pattern forbidden alts h p

    free :
        (has f f ≡ true)
        × ((summarize_alts f alts).contains ≡ false)
        × (final_line_terminator_can_produce (summarize_alts f alts) f ≡ false)
    free = excluded_lem alts f (all_excluded_lem alts forbidden f answer.1 m)

    held : (is_empty b ≡ true) × (at_end a ≡ true)
    held = all_anchored_lem alts b w a (fully_anchored_lem alts answer.0) match

    clean : has f (w ++ a) ≡ false
    clean =
        terminator_lem (summarize_alts f alts) f w a
          (summarize_alts-Covers f alts b w a ascii match) free.2 free.1 held.1

    inside : has f (b ++ (w ++ a)) ≡ false
    inside = subst (λ x. has f (x ++ (w ++ a)) ≡ false) (sym (is_empty_lem b held.0)) clean

    there : has f (front ++ (f ++ back)) ≡ true
    there = ground (arith, has-append f front (f ++ back), has-append f f back, free.0)
