-- ===== src/Regex/Sound.antt =====
-- core/internal/model/regexparse.go: a summary covers what the pattern matches.
use sast_engine.Prelude.{
  ℕ, ◌<◌, ◌≡◌, refl, sym, ap, ◌∙◌, subst, inl, inr, true, false, List, [], ◌∷◌, ◌++◌, arith, length,
  Bool-cases,
}
use sast_engine.Regex.{
  CharSet, Quantity, ReNode, char, group, assertion, Nodes, stop, node, Alts, none_left, branch,
}
use mathlib.Core.List.{append-nil, append_assoc}
use sast_engine.Regex.Bytes.{is_empty}
use sast_engine.Regex.Summary.{
  Summary, nothing, empty_text, or_else, and_then, summarize_node, summarize_alts, seq_from,
  alts_from, char_contains, joins_fragment,
}
use sast_engine.Regex.Matching.{MatchesAlts, MatchesSeq, MatchesNode, in_set, all_in, counts}
use sast_engine.Regex.Words.{has, right_start, left_end, in_right, in_left, starts, pair}
use sast_engine.Regex.Covers.{
  Covers, Covers-empty, Covers-left, Covers-right, Covers-and_then, Covers-repeat, all_in-starts,
  all_in-ends, all_in-one_of, all_ascii,
}

starts-nil : (b : ℕ) → starts b [] ≡ false
unfolding starts
starts-nil b = refl

in_set-ascii : (s : CharSet) (c : ℕ) → c < 128 → in_set s c ≡ true → s.ascii c ≡ true
unfolding in_set
in_set-ascii s c h e = ground arith

counts-zero :
    (q : Quantity) (w : List ℕ) → counts q (length w) ≡ true → is_empty w ≡ true → q.optional ≡ true
unfolding counts
counts-zero q [] k e = k
counts-zero q (c ∷ w) k e = absurd (ground arith)

counts-many :
    (q : Quantity) (w : List ℕ) → counts q (length w) ≡ true → 1 < length w → q.multiple ≡ true
unfolding counts
counts-many q [] k e = absurd (omega arith)
counts-many q (c ∷ []) k e = absurd (omega arith)
counts-many q (c ∷ d ∷ w) k e = k

-- An adjacent pair stands in a text of two characters or more, all in the set.
all_in-pair :
    (s : CharSet) (a b : ℕ) (w : List ℕ)
    → a < 128
    → b < 128
    → all_in s w ≡ true
    → pair a b w ≡ true
    → (1 < length w) × (s.ascii a ≡ true) × (s.ascii b ≡ true)
unfolding pair all_in
all_in-pair s a b [] h k m e = absurd (ground arith)
all_in-pair s a b (c ∷ []) h k m e = absurd (ground (arith, starts-nil b))
all_in-pair s a b (c ∷ d ∷ w) h k m e = elim (Bool-cases (pair a b (d ∷ w))) [
  | inl later ↦
      let r = all_in-pair s a b (d ∷ w) h k (ground arith) later in (omega arith, r.1, r.2)
  | inr now ↦ (
    omega arith,
    ground (arith, in_set-ascii s a h),
    ground (arith, in_set-ascii s b k, all_in-starts s b (d ∷ w) k),
  )
]

Covers-char :
    (f : List ℕ) (s : CharSet) (q : Quantity) (w : List ℕ)
    → all_ascii f ≡ true
    → all_in s w ≡ true
    → counts q (length w) ≡ true
    → Covers f (summarize_node f (char s q)) w
unfolding summarize_node char_contains joins_fragment has right_start left_end in_right in_left
    all_ascii counts
Covers-char [] s q w h m k = record {
  nullable = λ e. counts-zero q w k e;
  first = λ e. absurd (ground arith);
  last = λ e. absurd (ground arith);
  contains = λ e. absurd (ground arith);
}
Covers-char (a ∷ []) s q w h m k = record {
  nullable = λ e. counts-zero q w k e;
  first = λ e. absurd (ground arith);
  last = λ e. absurd (ground arith);
  contains = λ e. all_in-one_of s a w (ground arith) m e;
}
Covers-char (a ∷ b ∷ []) s q w h m k = record {
  nullable = λ e. counts-zero q w k e;
  first = λ e. all_in-starts s b w (ground arith) m e;
  last = λ e. all_in-ends s a w (ground arith) m e;
  contains = λ e.
      let r = all_in-pair s a b w (ground arith) (ground arith) m e in
      ground (arith, counts-many q w k r.0, r.1, r.2);
}
Covers-char (a ∷ b ∷ c ∷ f) s q w h m k = record {
  nullable = λ e. counts-zero q w k e;
  first = λ e. absurd (ground arith);
  last = λ e. absurd (ground arith);
  contains = λ e. absurd (ground arith);
}

module _ (f : List ℕ) (ascii : all_ascii f ≡ true) where
  -- what is covered stays covered as further alternatives are summed up
  Covers-alts_from :
      (out : Summary) (alts : Alts) (w : List ℕ)
      → Covers f out w
      → Covers f (alts_from f out alts) w
  unfolding alts_from
  Covers-alts_from out none_left w c = c
  Covers-alts_from out (branch seq alts) w c =
      Covers-alts_from (or_else out (seq_from f empty_text seq)) alts w
        (Covers-left f out (seq_from f empty_text seq) w c)

mutual
  unfolding alts_from seq_from summarize_node MatchesAlts MatchesSeq MatchesNode

  pub alts_covered :
      (f : List ℕ) (h : all_ascii f ≡ true) (out : Summary) (alts : Alts) (b w a : List ℕ)
      → MatchesAlts alts b w a
      → Covers f (alts_from f out alts) w
  alts_covered f h out none_left b w a m = elim m [ ]
  alts_covered f h out (branch seq alts) b w a (inl m) =
      Covers-alts_from f h (or_else out (seq_from f empty_text seq)) alts w (
        Covers-right f out (seq_from f empty_text seq) w
          (seq_covered f h empty_text seq [] b w a (Covers-empty f) m))
  alts_covered f h out (branch seq alts) b w a (inr m) =
      alts_covered f h (or_else out (seq_from f empty_text seq)) alts b w a m

  seq_covered :
      (f : List ℕ) (h : all_ascii f ≡ true) (out : Summary) (seq : Nodes) (u b w a : List ℕ)
      → Covers f out u
      → MatchesSeq seq b w a
      → Covers f (seq_from f out seq) (u ++ w)
  seq_covered f h out stop u b w a c m =
      subst (Covers f out) (sym (ap (λ x. u ++ x) m ∙ append-nil u)) c
  seq_covered f h out (node n seq) u b w a c (v, v', e, m, ms) =
      subst (Covers f (seq_from f (and_then f out (summarize_node f n)) seq))
        (append_assoc u v v' ∙ ap (λ x. u ++ x) (sym e))
        (seq_covered f h (and_then f out (summarize_node f n)) seq (u ++ v) (b ++ v) v' a
          (Covers-and_then f out (summarize_node f n) u v c (node_covered f h n b v (v' ++ a) m))
          ms)

  node_covered :
      (f : List ℕ) (h : all_ascii f ≡ true) (n : ReNode) (b w a : List ℕ)
      → MatchesNode n b w a
      → Covers f (summarize_node f n) w
  node_covered f h (assertion z q) b w a (e, m) =
      subst (Covers f empty_text) (sym e) (Covers-empty f)
  node_covered f h (char s q) b w a (m, k) = Covers-char f s q w h m k
  node_covered f h (group alts q) b w a (n, k, cs) =
      Covers-repeat f (alts_from f nothing alts) (λ b' t a'. MatchesAlts alts b' t a')
        (λ b' t a' m. alts_covered f h nothing alts b' t a' m) q n b w a k cs

pub summarize_alts-Covers :
    (f : List ℕ) (alts : Alts) (b w a : List ℕ)
    → all_ascii f ≡ true
    → MatchesAlts alts b w a
    → Covers f (summarize_alts f alts) w
unfolding summarize_alts
summarize_alts-Covers f alts b w a h m = alts_covered f h nothing alts b w a m
