-- ===== src/Regex/Leading.antt =====
-- core/internal/model/regexparse.go: what leadingSet answers.
use sast_engine.Prelude.{
  ℕ, ◌≡◌, refl, sym, subst, ◌⊎◌, inl, inr, ◌↔◌, true, false, List, [], some, Bool-cases,
  Option-cases, arith, none-not-some, some-injective,
}
use sast_engine.Regex.{
  CharSet, no_chars, union, char, group, assertion, ReNode, Nodes, stop, node, Alts, none_left,
  branch,
}
use sast_engine.Regex.Matching.{in_set, MatchesAlts}
use sast_engine.Regex.Begins.{Begins, AllLed-Begins, leading_from-AllLed}
use sast_engine.Regex.Leads.{
  may_be_empty, LeadsAlts, first, rest, LeadsSeq, past, at_char, at_group,
}
use sast_engine.Regex.Adjacent.{leading_from, leading_seq, leading_set}

in_union-cases :
    (s t : CharSet) (c : ℕ)
    → in_set (union s t) c ≡ true
    → (in_set s c ≡ true) ⊎ (in_set t c ≡ true)
unfolding union in_set
in_union-cases s t c i = elim (Bool-cases (in_set s c)) [
  | inl y ↦ inl y
  | inr n ↦ inr (ground arith)
]

not-no_chars : (c : ℕ) → ¬ (in_set no_chars c ≡ true)
unfolding in_set no_chars
not-no_chars c i = ground arith

-- A set is part of another.
abbrev Within : CharSet → CharSet → Type 0
Within s t = (c : ℕ) → in_set s c ≡ true → in_set t c ≡ true

Within-union-left : (s t : CharSet) → Within s (union s t)
unfolding union in_set
Within-union-left s t c i = ground arith

Within-union-right : (s t : CharSet) → Within t (union s t)
unfolding union in_set
Within-union-right s t c i = ground arith

-- what leads in a node that cannot match nothing
abbrev Heads : ReNode → ℕ → Type 0
Heads (assertion z q) c = ⊥
Heads (char s q) c = in_set s c ≡ true
Heads (group alts q) c = (u : List ℕ) × LeadsAlts alts u c

LeadsSeq-cases :
    (n : ReNode) (seq : Nodes) (u : List ℕ) (c : ℕ)
    → LeadsSeq (node n seq) u c
    → ((may_be_empty n ≡ true) × (v : List ℕ) × LeadsSeq seq v c)
      ⊎ ((may_be_empty n ≡ false) × Heads n c)
LeadsSeq-cases n seq _ c (past _ _ x v _ o t l) = inl (o, v, l)
LeadsSeq-cases (char s q) seq _ c (at_char _ _ _ _ o i) = inr (o, i)
LeadsSeq-cases (group alts q) seq u c (at_group _ _ _ _ _ o l) = inr (o, (u, l))

-- What leads after a node that may match nothing leads before it.
past-Leads :
    {A : Type 0} (n : ReNode) (seq : Nodes) (c : ℕ)
    → may_be_empty n ≡ true
    → A ⊎ ((u : List ℕ) × LeadsSeq seq u c)
    → A ⊎ ((u : List ℕ) × LeadsSeq (node n seq) u c)
past-Leads n seq c o (inl a) = inl a
past-Leads n seq c o (inr (u, l)) = inr (u, past n seq [] u c o (inl refl) l)

mutual
  unfolding leading_from leading_seq

  -- what the answer has comes from the branches before or leads
  alts_sound :
      (out : CharSet) (alts : Alts) (m : CharSet) (c : ℕ)
      → leading_from out alts ≡ some m
      → in_set m c ≡ true
      → (in_set out c ≡ true) ⊎ ((u : List ℕ) × LeadsAlts alts u c)
  alts_sound out none_left m c e i =
      inl (subst (λ s. in_set s c ≡ true) (sym (some-injective out m e)) i)
  alts_sound out (branch seq alts) m c e i = elim (Option-cases (leading_seq out seq)) [
    | inl n ↦ absurd (none-not-some m (rw (n, leading_from) at e))
    | inr (out', f) ↦ elim (alts_sound out' alts m c (rw (f, leading_from) at e) i) [
      | inr (u, l) ↦ inr (u, rest seq alts u c l)
      | inl j ↦ elim (seq_sound out seq out' c f j) [
        | inl k ↦ inl k
        | inr (u, l) ↦ inr (u, first seq alts u c l)
      ]
    ]
  ]

  seq_sound :
      (out : CharSet) (seq : Nodes) (m : CharSet) (c : ℕ)
      → leading_seq out seq ≡ some m
      → in_set m c ≡ true
      → (in_set out c ≡ true) ⊎ ((u : List ℕ) × LeadsSeq seq u c)
  seq_sound out stop m c e i = absurd (none-not-some m e)
  seq_sound out (node (assertion z q) seq) m c e i =
      past-Leads (assertion z q) seq c refl (seq_sound out seq m c e i)
  seq_sound out (node (char s q) seq) m c e i = elim (Bool-cases q.optional) [
    | inl o ↦ past-Leads (char s q) seq c o (seq_sound out seq m c (rw (o, leading_seq) at e) i)
    | inr o ↦
        let eq : union out s ≡ m = some-injective (union out s) m (rw (o, leading_seq) at e) in
        elim (in_union-cases out s c (subst (λ t. in_set t c ≡ true) (sym eq) i)) [
          | inl j ↦ inl j
          | inr j ↦ inr ([], at_char s q seq c o j)
        ]
  ]
  seq_sound out (node (group alts q) seq) m c e i = elim (Bool-cases q.optional) [
    | inl o ↦ past-Leads (group alts q) seq c o (seq_sound out seq m c (rw (o, leading_seq) at e) i)
    | inr o ↦ elim (Option-cases (leading_from no_chars alts)) [
      | inl n ↦ absurd (none-not-some m (rw (o, n, leading_seq) at e))
      | inr (inner, g) ↦
          let eq : union out inner ≡ m =
            some-injective (union out inner) m (rw (o, g, leading_seq) at e) in
          elim (in_union-cases out inner c (subst (λ t. in_set t c ≡ true) (sym eq) i)) [
            | inl j ↦ inl j
            | inr j ↦ elim (alts_sound no_chars alts inner c g j) [
              | inl k ↦ absurd (not-no_chars c k)
              | inr (u, l) ↦ inr (u, at_group alts q seq u c o l)
            ]
          ]
    ]
  ]

mutual
  unfolding leading_from leading_seq

  -- the answer has what the branches before gave, and what leads
  alts_complete :
      (out : CharSet) (alts : Alts) (m : CharSet)
      → leading_from out alts ≡ some m
      → Within out m × ((u : List ℕ) (c : ℕ) → LeadsAlts alts u c → in_set m c ≡ true)
  alts_complete out none_left m e =
      (λ c i. subst (λ s. in_set s c ≡ true) (some-injective out m e) i, λ u c l. elim l [ ])
  alts_complete out (branch seq alts) m e = elim (Option-cases (leading_seq out seq)) [
    | inl n ↦ absurd (none-not-some m (rw (n, leading_from) at e))
    | inr (out', f) ↦
        let (sub, leads) = seq_complete out seq out' f in
        let (sub', leads') = alts_complete out' alts m (rw (f, leading_from) at e) in
        (
          λ c i. sub' c (sub c i),
          λ u c l. elim l [
            | first _ _ _ _ l' ↦ sub' c (leads u c l')
            | rest _ _ _ _ l' ↦ leads' u c l'
          ],
        )
  ]

  seq_complete :
      (out : CharSet) (seq : Nodes) (m : CharSet)
      → leading_seq out seq ≡ some m
      → Within out m × ((u : List ℕ) (c : ℕ) → LeadsSeq seq u c → in_set m c ≡ true)
  seq_complete out stop m e = absurd (none-not-some m e)
  seq_complete out (node (assertion z q) seq) m e =
      let (sub, leads) = seq_complete out seq m e in
      (
        sub,
        λ u c l. elim (LeadsSeq-cases (assertion z q) seq u c l) [
          | inl (o, v, l') ↦ leads v c l'
          | inr (o, h) ↦ absurd h
        ],
      )
  seq_complete out (node (char s q) seq) m e = elim (Bool-cases q.optional) [
    | inl o ↦
        let (sub, leads) = seq_complete out seq m (rw (o, leading_seq) at e) in
        (
          sub,
          λ u c l. elim (LeadsSeq-cases (char s q) seq u c l) [
            | inl (o', v, l') ↦ leads v c l'
            | inr (o', h) ↦ absurd (ground arith)
          ],
        )
    | inr o ↦
        let eq : union out s ≡ m = some-injective (union out s) m (rw (o, leading_seq) at e) in
        (
          λ c i. subst (λ t. in_set t c ≡ true) eq (Within-union-left out s c i),
          λ u c l. elim (LeadsSeq-cases (char s q) seq u c l) [
            | inl (o', v, l') ↦ absurd (ground arith)
            | inr (o', i) ↦ subst (λ t. in_set t c ≡ true) eq (Within-union-right out s c i)
          ],
        )
  ]
  seq_complete out (node (group alts q) seq) m e = elim (Bool-cases q.optional) [
    | inl o ↦
        let (sub, leads) = seq_complete out seq m (rw (o, leading_seq) at e) in
        (
          sub,
          λ u c l. elim (LeadsSeq-cases (group alts q) seq u c l) [
            | inl (o', v, l') ↦ leads v c l'
            | inr (o', h) ↦ absurd (ground arith)
          ],
        )
    | inr o ↦ elim (Option-cases (leading_from no_chars alts)) [
      | inl n ↦ absurd (none-not-some m (rw (o, n, leading_seq) at e))
      | inr (inner, g) ↦
          let eq : union out inner ≡ m =
            some-injective (union out inner) m (rw (o, g, leading_seq) at e) in
          let (_, leads) = alts_complete no_chars alts inner g in
          (
            λ c i. subst (λ t. in_set t c ≡ true) eq (Within-union-left out inner c i),
            λ u c l. elim (LeadsSeq-cases (group alts q) seq u c l) [
              | inl (o', v, l') ↦ absurd (ground arith)
              | inr (o', (v, l')) ↦
                  subst (λ t. in_set t c ≡ true) eq (Within-union-right out inner c (leads v c l'))
            ],
          )
    ]
  ]

-- If leadingSet answers with a set, its characters are exactly those that can be the first that a
-- branch has to take, and every text that a branch matches has such a character, after what nodes took
-- that may match nothing.
pub leading_set-LeadsAlts :
    (alts : Alts) (marker : CharSet)
    → leading_set alts ≡ some marker
    → ((c : ℕ) → (in_set marker c ≡ true) ↔ ((u : List ℕ) × LeadsAlts alts u c))
      × ((before text after : List ℕ)
          → MatchesAlts alts before text after
          → Begins (LeadsAlts alts) text)
unfolding leading_set
leading_set-LeadsAlts alts m e = (
  λ c. (
    λ i. elim (alts_sound no_chars alts m c e i) [ inl k ↦ absurd (not-no_chars c k) | inr l ↦ l ],
    λ (u, l). (alts_complete no_chars alts m e).1 u c l,
  ),
  λ b w a x. AllLed-Begins (leading_from-AllLed no_chars alts m e) b w a x,
)
