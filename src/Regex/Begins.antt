-- ===== src/Regex/Begins.antt =====
-- core/internal/model/regexparse.go: when leadingSet answers with a set, and how the texts begin then.
use sast_engine.Prelude.{
  ℕ, zero, suc, ◌≡◌, refl, sym, subst, inl, inr, true, false, List, [], ◌∷◌, ◌++◌, some, Bool-cases,
  Option-cases, arith, length, ap, ◌∙◌, none-not-some,
}
use mathlib.Core.List.{append_assoc}
use sast_engine.Regex.{
  CharSet, no_chars, union, Quantity, char, group, assertion, Nodes, stop, node, Alts, none_left,
  branch,
}
use sast_engine.Regex.Matching.{
  in_set, all_in, counts, Copies, MatchesAlts, MatchesSeq, MatchesNode,
}
use sast_engine.Regex.Adjacent.{leading_from, leading_seq}
use sast_engine.Regex.Leads.{
  LeadsAlts, first, rest, LeadsSeq, past, at_char, at_group, AllLed, no_branch, both, Led, led_past,
  led_char, led_group,
}

-- A text of a node that has to take one begins with a character that the node allows.
char-Leads :
    (s : CharSet) (q : Quantity) (w : List ℕ)
    → q.optional ≡ false
    → all_in s w ≡ true
    → counts q (length w) ≡ true
    → (c : ℕ) × (v : List ℕ) × (w ≡ c ∷ v) × (in_set s c ≡ true)
unfolding all_in counts
char-Leads s q [] o a k = absurd (ground arith)
char-Leads s q (c ∷ w) o a k = (c, w, refl, ground arith)

-- how a text begins
abbrev pub Begins : (List ℕ → ℕ → Type 0) → List ℕ → Type 0
Begins leads w = (u v : List ℕ) × (c : ℕ) × (w ≡ u ++ c ∷ v) × leads u c

Begins-append : (l : List ℕ → ℕ → Type 0) (w z : List ℕ) → Begins l w → Begins l (w ++ z)
Begins-append l w z (u, v, c, e, h) =
    (u, v ++ z, c, ap (λ t. t ++ z) e ∙ append_assoc u (c ∷ v) z, h)

char-Begins :
    (s : CharSet) (q : Quantity) (seq : Nodes)
    → q.optional ≡ false
    → (b w a z : List ℕ) → MatchesNode (char s q) b w a
    → Begins (LeadsSeq (node (char s q) seq)) (w ++ z)
unfolding MatchesNode
char-Begins s q seq o b w a z (all, k) =
    let (c, v, e, i) = char-Leads s q w o all k in
    ([], v ++ z, c, ap (λ t. t ++ z) e, at_char s q seq c o i)

-- Copies of a language, at least one, begin as the language does.
Copies-Begins :
    (alts : Alts) (q : Quantity)
    → q.optional ≡ false
    → ((b w a : List ℕ) → MatchesAlts alts b w a → Begins (LeadsAlts alts) w)
    → (b w a : List ℕ) → MatchesNode (group alts q) b w a
    → Begins (LeadsAlts alts) w
unfolding MatchesNode Copies counts
Copies-Begins alts q o h b w a (zero, k, cs) = absurd (ground arith)
Copies-Begins alts q o h b w a (suc n, k, (u, v, e, one, more)) =
    subst (Begins (LeadsAlts alts)) (sym e)
      (Begins-append (LeadsAlts alts) u v (h b u (v ++ a) one))

mutual
  unfolding MatchesAlts MatchesSeq

  -- If each branch has a character that it has to take, a text begins with one, after what nodes took
  -- that may match nothing.
  pub AllLed-Begins :
      {alts : Alts}
      → AllLed alts
      → (b w a : List ℕ) → MatchesAlts alts b w a
      → Begins (LeadsAlts alts) w
  AllLed-Begins no_branch b w a x = absurd x
  AllLed-Begins (both seq alts d ds) b w a (inl x) =
      let (u, v, c, e, l) = Led-Begins d b w a x in (u, v, c, e, first seq alts u c l)
  AllLed-Begins (both seq alts d ds) b w a (inr x) =
      let (u, v, c, e, l) = AllLed-Begins ds b w a x in (u, v, c, e, rest seq alts u c l)

  Led-Begins :
      {seq : Nodes} → Led seq → (b w a : List ℕ) → MatchesSeq seq b w a → Begins (LeadsSeq seq) w
  Led-Begins (led_past n seq o d) b w a (x, y, e, here, later) =
      let (u, v, c, f, l) = Led-Begins d (b ++ x) y a later in
      (
        x ++ u,
        v,
        c,
        e ∙ ap (λ t. x ++ t) f ∙ sym (append_assoc x u (c ∷ v)),
        past n seq x u c o (inr (b, y ++ a, here)) l,
      )
  Led-Begins (led_char s q seq o) b w a (x, y, e, here, later) =
      subst (Begins (LeadsSeq (node (char s q) seq))) (sym e)
        (char-Begins s q seq o b x (y ++ a) y here)
  Led-Begins (led_group alts q seq o d) b w a (x, y, e, here, later) =
      let (u, v, c, f, l) =
        Begins-append (LeadsAlts alts) x y
          (Copies-Begins alts q o (λ b' w' a' m. AllLed-Begins d b' w' a' m) b x (y ++ a) here) in
      (u, v, c, e ∙ f, at_group alts q seq u c o l)

mutual
  unfolding leading_from leading_seq

  -- leadingSet answers with a set exactly if each branch has a character that it has to take
  pub leading_from-AllLed :
      (out : CharSet) (alts : Alts) (m : CharSet) → leading_from out alts ≡ some m → AllLed alts
  leading_from-AllLed out none_left m e = no_branch
  leading_from-AllLed out (branch seq alts) m e = elim (Option-cases (leading_seq out seq)) [
    | inl n ↦ absurd (none-not-some m (rw (n, leading_from) at e))
    | inr (out', f) ↦
        both seq alts (leading_seq-Led out seq out' f)
          (leading_from-AllLed out' alts m (rw (f, leading_from) at e))
  ]

  leading_seq-Led :
      (out : CharSet) (seq : Nodes) (m : CharSet) → leading_seq out seq ≡ some m → Led seq
  leading_seq-Led out stop m e = absurd (none-not-some m e)
  leading_seq-Led out (node (assertion z q) seq) m e =
      led_past (assertion z q) seq refl (leading_seq-Led out seq m e)
  leading_seq-Led out (node (char s q) seq) m e = elim (Bool-cases q.optional) [
    | inl o ↦ led_past (char s q) seq o (leading_seq-Led out seq m (rw (o, leading_seq) at e))
    | inr o ↦ led_char s q seq o
  ]
  leading_seq-Led out (node (group alts q) seq) m e = elim (Bool-cases q.optional) [
    | inl o ↦ led_past (group alts q) seq o (leading_seq-Led out seq m (rw (o, leading_seq) at e))
    | inr o ↦ elim (Option-cases (leading_from no_chars alts)) [
      | inl n ↦ absurd (none-not-some m (rw (o, n, leading_seq) at e))
      | inr (inner, g) ↦ led_group alts q seq o (leading_from-AllLed no_chars alts inner g)
    ]
  ]

mutual
  unfolding leading_from leading_seq

  pub AllLed-leading_from :
      {alts : Alts}
      → AllLed alts
      → (out : CharSet) → (m : CharSet) × (leading_from out alts ≡ some m)
  AllLed-leading_from no_branch out = (out, refl)
  AllLed-leading_from (both seq alts d ds) out =
      let (out', f) = Led-leading_seq d out in
      let (m, e) = AllLed-leading_from ds out' in (m, rw (f, leading_from) e)

  Led-leading_seq :
      {seq : Nodes} → Led seq → (out : CharSet) → (m : CharSet) × (leading_seq out seq ≡ some m)
  Led-leading_seq (led_past (assertion z q) seq o d) out = Led-leading_seq d out
  Led-leading_seq (led_past (char s q) seq o d) out =
      let (m, e) = Led-leading_seq d out in (m, rw (o, leading_seq) e)
  Led-leading_seq (led_past (group alts q) seq o d) out =
      let (m, e) = Led-leading_seq d out in (m, rw (o, leading_seq) e)
  Led-leading_seq (led_char s q seq o) out = (union out s, rw (o, leading_seq) refl)
  Led-leading_seq (led_group alts q seq o d) out =
      let (inner, g) = AllLed-leading_from d no_chars in
      (union out inner, rw (o, g, leading_seq) refl)
