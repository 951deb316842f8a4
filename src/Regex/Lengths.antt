-- ===== src/Regex/Lengths.antt =====
-- core/internal/model/regexparse.go: what the readers leave of a pattern is no longer than it.
use sast_engine.Prelude.{
  ℕ, suc, ◌≤◌, ◌≡◌, inl, inr, Bool, true, false, not, ◌||◌, List, [], ◌∷◌, Option, none, some,
  arith, length, nat_eq, Bool-cases, Option-cases, if◌then◌else◌,
}
use sast_engine.Regex.Bytes.{
  split_at, backslash, close_brace, greater, equals, bang, colon, less, question,
}
use sast_engine.Regex.Classes.{
  Read, out_of_fuel, refused, read, Member, one, class_atom, class_escape,
}
use sast_engine.Regex.Quantifier.{read_quantifier, read_brace, skip_marker}
use sast_engine.Regex.Parse.{
  group_prefix, skip_group_prefix, skip_angle, after_name, after_bar, atom_start,
}

-- The reader has had enough fuel, and leaves at most `n` bytes.
abbrev pub Ends {ℓ} : {A : Type ℓ} → ℕ → Read A → Type 0
Ends n out_of_fuel = ⊥
Ends n refused = Unit
Ends n (read x rest) = length rest ≤ n

-- the bytes that an answer leaves
abbrev pub Leaves {ℓ} : {A : Type ℓ} → ℕ → Option (A × List ℕ) → Type 0
Leaves n none = Unit
Leaves n (some (x, rest)) = length rest ≤ n

module _ {ℓ} {A : Type ℓ} where
  pub Leaves-if :
      (n : ℕ) (b : Bool) (x y : Option (A × List ℕ))
      → Leaves n x
      → Leaves n y
      → Leaves n (if b then x else y)
  Leaves-if n true x y h k = h
  Leaves-if n false x y h k = k

  pub Leaves-le : (m n : ℕ) (x : Option (A × List ℕ)) → m ≤ n → Leaves m x → Leaves n x
  Leaves-le m n none h l = tt
  Leaves-le m n (some (a, rest)) h l = omega arith

  pub Ends-if :
      (n : ℕ) (b : Bool) (x y : Read A) → Ends n x → Ends n y → Ends n (if b then x else y)
  Ends-if n true x y h k = h
  Ends-if n false x y h k = k

  pub Ends-le : (m n : ℕ) (x : Read A) → m ≤ n → Ends m x → Ends n x
  Ends-le m n out_of_fuel h e = e
  Ends-le m n refused h e = tt
  Ends-le m n (read a rest) h e = omega arith

pub split_at-Leaves : (b : ℕ) (p : List ℕ) → Leaves (length p) (split_at b p)
unfolding split_at
split_at-Leaves b [] = tt
split_at-Leaves b (c ∷ cs) = elim (Bool-cases (nat_eq c b)) [
  | inl e ↦ rw e (omega arith)
  | inr n ↦ elim (Option-cases (split_at b cs)) [
    | inl o ↦ rw (n, o) tt
    | inr ((front, back), o) ↦
        let h : length back ≤ length cs = rw o at (split_at-Leaves b cs) in rw (n, o) (omega arith)
  ]
]

pub skip_marker-length : (p : List ℕ) → length (skip_marker p) ≤ length p
unfolding skip_marker
skip_marker-length [] = omega arith
skip_marker-length (c ∷ cs) = ground arith

pub read_brace-length : (cs : List ℕ) → length (read_brace cs).1 ≤ suc (length cs)
unfolding read_brace
read_brace-length cs = elim (Option-cases (split_at close_brace cs)) [
  | inl o ↦ rw (o, length) (omega arith)
  | inr ((body, rest), o) ↦
      let h : length rest ≤ length cs = rw o at (split_at-Leaves close_brace cs) in
      rw (o, length) (ground (arith, skip_marker-length rest, h))
]

pub read_quantifier-length : (p : List ℕ) → length (read_quantifier p).1 ≤ length p
unfolding read_quantifier
read_quantifier-length [] = omega arith
read_quantifier-length (c ∷ cs) = ground (arith, skip_marker-length cs, read_brace-length cs)

pub member_of-Leaves :
    (o : Option Member) (cs : List ℕ)
    → Leaves (length cs) (elim o [ none ↦ none | some a ↦ some (a, cs) ])
member_of-Leaves none cs = tt
member_of-Leaves (some a) cs = omega arith

pub class_atom-Leaves : (c : ℕ) (cs : List ℕ) → Leaves (length cs) (class_atom (c ∷ cs))
unfolding class_atom
class_atom-Leaves c [] = ground arith
class_atom-Leaves c (e ∷ cs) =
    Leaves-if (suc (length cs)) (not (nat_eq c backslash)) (some (one c, e ∷ cs)) _ (omega arith) (
      Leaves-le (length cs) (suc (length cs)) _ (omega arith)
        (member_of-Leaves (class_escape e) cs))

pub after_name-Leaves :
    (n : ℕ) (o : Option (List ℕ × List ℕ)) → Leaves n o → Leaves n (after_name o)
unfolding after_name
after_name-Leaves n none h = tt
after_name-Leaves n (some (name, rest)) h = h

pub name-Leaves : (p : List ℕ) → Leaves (length p) (after_name (split_at greater p))
name-Leaves p = after_name-Leaves (length p) (split_at greater p) (split_at-Leaves greater p)

pub skip_angle-Leaves : (p : List ℕ) → Leaves (length p) (skip_angle p)
unfolding skip_angle
skip_angle-Leaves [] = tt
skip_angle-Leaves (c ∷ cs) =
    Leaves-if (suc (length cs)) (nat_eq c equals || nat_eq c bang) (some (true, cs)) _ (omega arith)
      (name-Leaves (c ∷ cs))

pub skip_group_prefix-Leaves : (p : List ℕ) → Leaves (length p) (skip_group_prefix p)
unfolding skip_group_prefix
skip_group_prefix-Leaves [] = tt
skip_group_prefix-Leaves (c ∷ cs) =
    let n = suc (length cs) in
    Leaves-if n (nat_eq c colon) (some (false, cs)) _ (omega arith) (
      Leaves-if n (nat_eq c equals || nat_eq c bang) (some (true, cs)) _ (omega arith) (
        Leaves-if n (nat_eq c less) (skip_angle cs) _
          (Leaves-le (length cs) n (skip_angle cs) (omega arith) (skip_angle-Leaves cs))
          (Leaves-if n (nat_eq c 80) (after_name (split_at greater cs)) none
            (Leaves-le (length cs) n (after_name (split_at greater cs)) (omega arith)
              (name-Leaves cs))
            tt)))

pub group_prefix-Leaves : (p : List ℕ) → Leaves (length p) (group_prefix p)
unfolding group_prefix
group_prefix-Leaves [] = omega arith
group_prefix-Leaves (c ∷ cs) =
    Leaves-if (suc (length cs)) (nat_eq c question) (skip_group_prefix cs) (some (false, c ∷ cs))
      (Leaves-le (length cs) (suc (length cs)) (skip_group_prefix cs) (omega arith)
        (skip_group_prefix-Leaves cs))
      (omega arith)

pub after_bar-length : (p rest : List ℕ) → after_bar p ≡ some rest → suc (length rest) ≤ length p
unfolding after_bar
after_bar-length [] rest e = absurd (ground arith)
after_bar-length (c ∷ cs) rest e = ground (arith, e)

pub atom_start-length :
    (p : List ℕ) (c : ℕ) (rest : List ℕ)
    → atom_start p ≡ some (c, rest)
    → suc (length rest) ≤ length p
unfolding atom_start
atom_start-length [] c rest e = absurd (ground arith)
atom_start-length (d ∷ cs) c rest e = ground (arith, e)
