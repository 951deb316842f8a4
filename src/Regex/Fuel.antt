-- ===== src/Regex/Fuel.antt =====
-- core/internal/model/regexparse.go: the fuel of the parser is enough for every pattern.
use sast_engine.Prelude.{
  ℕ, zero, suc, ◌+◌, ◌*◌, ◌≤◌, ◌≡◌, ◌≢◌, ◌⊎◌, refl, inl, inr, Bool, List, [], ◌∷◌, arith, length,
  nat_eq, Bool-cases, Option-cases, subst,
}
use sast_engine.Regex.{ReNode, Nodes, Alts, quantified}
use sast_engine.Regex.Bytes.{open_paren, close_paren}
use sast_engine.Regex.Classes.{Read, out_of_fuel, refused, read}
use sast_engine.Regex.Quantifier.{read_quantifier}
use sast_engine.Regex.Parse.{
  parse_alts, parse_seq, parse_atom, close_group, add_branch, add_node, after_bar, atom_start,
  group_prefix, enough,
}
use sast_engine.Regex.Rounds.{plain_atom-Ends}
use sast_engine.Regex.Lengths.{
  Ends, Ends-le, read_quantifier-length, group_prefix-Leaves, after_bar-length, atom_start-length,
}

Read-cases {ℓ} :
    {A : Type ℓ} (n : ℕ) (r : Read A)
    → Ends n r
    → (r ≡ refused) ⊎ ((x : A) × (rest : List ℕ) × (r ≡ read x rest) × (length rest ≤ n))
Read-cases n out_of_fuel e = absurd e
Read-cases n refused e = inl refl
Read-cases n (read x rest) e = inr (x, rest, refl, e)

add_branch-Ends : (n : ℕ) (seq : Nodes) (r : Read Alts) → Ends n r → Ends n (add_branch seq r)
unfolding add_branch
add_branch-Ends n seq out_of_fuel e = e
add_branch-Ends n seq refused e = tt
add_branch-Ends n seq (read x rest) e = e

add_node-Ends : (n : ℕ) (x : ReNode) (r : Read Nodes) → Ends n r → Ends n (add_node x r)
unfolding add_node
add_node-Ends n x out_of_fuel e = e
add_node-Ends n x refused e = tt
add_node-Ends n x (read seq rest) e = e

close_group-Ends : (n : ℕ) (b : Bool) (r : Read Alts) → Ends n r → Ends n (close_group b r)
unfolding close_group
close_group-Ends n b out_of_fuel e = e
close_group-Ends n b refused e = tt
close_group-Ends n b (read alts []) e = tt
close_group-Ends n b (read alts (c ∷ cs)) e = elim (Bool-cases (nat_eq c close_paren)) [
  | inl y ↦ rw y (omega arith)
  | inr o ↦ rw o tt
]

mutual
  unfolding parse_alts parse_seq parse_atom

  alts-Ends :
      (fuel : ℕ) (p : List ℕ) → 3 * length p + 3 ≤ fuel → Ends (length p) (parse_alts fuel p)
  alts-Ends zero p h = absurd (omega arith)
  alts-Ends (suc fuel) p h =
      elim (Read-cases (length p) (parse_seq fuel p) (seq-Ends fuel p (omega arith))) [
        | inl e ↦ rw e tt
        | inr (seq, rest, e, l) ↦ elim (Option-cases (after_bar rest)) [
          | inl o ↦ rw (e, o) l
          | inr (rest', o) ↦
              let k = after_bar-length rest rest' o in
              rw (e, o)
                (Ends-le (length rest') (length p) (add_branch seq (parse_alts fuel rest'))
                  (omega arith)
                  (add_branch-Ends (length rest') seq (parse_alts fuel rest')
                    (alts-Ends fuel rest' (omega arith))))
        ]
      ]

  seq-Ends : (fuel : ℕ) (p : List ℕ) → 3 * length p + 2 ≤ fuel → Ends (length p) (parse_seq fuel p)
  seq-Ends zero p h = absurd (omega arith)
  seq-Ends (suc fuel) p h = elim (Option-cases (atom_start p)) [
    | inl o ↦ rw (o, Ends) (omega arith)
    | inr ((c, cs), o) ↦
        let k = atom_start-length p c cs o in
        elim (Read-cases (length cs) (parse_atom fuel c cs) (atom-Ends fuel c cs (omega arith))) [
          | inl e ↦ rw (o, e, Ends) tt
          | inr (n, rest, e, l) ↦
              let left = (read_quantifier rest).1 in
              let r = read_quantifier-length rest in
              let more = add_node (quantified n (read_quantifier rest).0) (parse_seq fuel left) in
              rw (o, e, parse_seq)
                (Ends-le (length left) (length p) more (omega arith) (
                  add_node-Ends (length left) (quantified n (read_quantifier rest).0)
                    (parse_seq fuel left) (seq-Ends fuel left (omega arith))))
        ]
  ]

  atom-Ends :
      (fuel c : ℕ) (cs : List ℕ)
      → 3 * length cs + 4 ≤ fuel
      → Ends (length cs) (parse_atom fuel c cs)
  atom-Ends zero c cs h = absurd (omega arith)
  atom-Ends (suc fuel) c cs h = elim (Bool-cases (nat_eq c open_paren)) [
    | inr n ↦ rw (n, parse_atom) (plain_atom-Ends c cs)
    | inl y ↦ elim (Option-cases (group_prefix cs)) [
      | inl o ↦ rw (y, o, Ends) tt
      | inr ((zero_width, rest), o) ↦
          let k : length rest ≤ length cs = rw o at (group_prefix-Leaves cs) in
          rw (y, o, parse_atom)
            (Ends-le (length rest) (length cs) (close_group zero_width (parse_alts fuel rest)) k (
              close_group-Ends (length rest) zero_width (parse_alts fuel rest)
                (alts-Ends fuel rest (omega arith))))
    ]
  ]

-- The fuel that parseRegex and AnchoredRegexExcludes give the parser never runs out.
pub parse_alts_total : (p : List ℕ) → parse_alts (enough p) p ≢ out_of_fuel
parse_alts_total p e = subst (Ends (length p)) e (alts-Ends (enough p) p (omega arith))
