-- ===== src/Regex/Rounds.antt =====
-- core/internal/model/regexparse.go: the loop of parseClass ends, and so do the other atoms.
use sast_engine.Prelude.{
  ℕ, zero, suc, ◌≤◌, ◌<◌, Bool, true, false, not, ◌&&◌, ◌||◌, List, [], ◌∷◌, Option, none, some,
  arith, length, nat_eq, ltb, if◌then◌else◌,
}
use sast_engine.Regex.{CharSet, ReNode, union, add, add_range, no_chars}
use sast_engine.Regex.Bytes.{
  caret, close_bracket, hyphen, backslash, question, open_bracket, dollar, dot, star, plus,
}
use sast_engine.Regex.Classes.{
  Read, refused, read, Member, one, many, class_atom, RangeEnd, no_range, lone_hyphen, upto,
  range_end, class_loop, parse_class, shorthand, escape_node,
}
use sast_engine.Regex.Parse.{plain_atom, escape_atom}
use sast_engine.Regex.Lengths.{Ends, Leaves, Ends-if, Ends-le, class_atom-Leaves}

-- what the end of a range leaves
abbrev RangeLeaves : ℕ → RangeEnd → Type 0
RangeLeaves n no_range = Unit
RangeLeaves n (lone_hyphen rest) = length rest ≤ n
RangeLeaves n (upto hi rest) = length rest ≤ n

RangeLeaves-if :
    (n : ℕ) (b : Bool) (x y : RangeEnd)
    → RangeLeaves n x
    → RangeLeaves n y
    → RangeLeaves n (if b then x else y)
RangeLeaves-if n true x y h k = h
RangeLeaves-if n false x y h k = k

range_end-Leaves : (p : List ℕ) → RangeLeaves (length p) (range_end p)
unfolding range_end
range_end-Leaves [] = tt
range_end-Leaves (c ∷ []) = tt
range_end-Leaves (c ∷ d ∷ cs) =
    RangeLeaves-if (suc (suc (length cs))) (nat_eq c hyphen && not (nat_eq d close_bracket)) _
      no_range (go (class_atom (d ∷ cs)) (class_atom-Leaves d cs)) tt
  where
    go :
        (o : Option (Member × List ℕ))
        → Leaves (length cs) o
        → RangeLeaves (suc (suc (length cs))) (elim o [
          | none ↦ lone_hyphen (d ∷ cs)
          | some (many e, rest) ↦ lone_hyphen (d ∷ cs)
          | some (one hi, rest) ↦ upto hi rest
        ])
    go none h = omega arith
    go (some (many e, rest)) h = omega arith
    go (some (one hi, rest)) h = omega arith

-- One round of parseClass, given what the rest of the loop does.
module _ (n m : ℕ) (next : CharSet → List ℕ → Read ReNode) (s : CharSet) where
  Next : Type 0
  Next = (s' : CharSet) (p : List ℕ) → length p ≤ m → Ends n (next s' p)

  shorthand-Ends :
      (o : Option CharSet) (rest : List ℕ)
      → Next
      → length rest ≤ m
      → Ends n (elim o [ none ↦ refused | some set ↦ next (union s set) rest ])
  unfolding Next
  shorthand-Ends none rest k h = tt
  shorthand-Ends (some set) rest k h = k (union s set) rest h

  upto-Ends :
      (b : Bool) (lo hi : ℕ) (rest : List ℕ)
      → Next
      → length rest ≤ m
      → Ends n (elim b [ true ↦ refused | false ↦ next (add_range s lo hi) rest ])
  unfolding Next
  upto-Ends true lo hi rest k h = tt
  upto-Ends false lo hi rest k h = k (add_range s lo hi) rest h

  range-Ends :
      (r : RangeEnd) (lo : ℕ) (rest : List ℕ)
      → Next
      → length rest ≤ m
      → RangeLeaves (length rest) r
      → Ends n (elim r [
        | no_range ↦ next (add s lo) rest
        | lone_hyphen rest' ↦ next (add s hyphen) rest'
        | upto hi rest' ↦ elim (ltb hi lo) [
          | true ↦ refused
          | false ↦ next (add_range s lo hi) rest'
        ]
      ])
  unfolding Next
  range-Ends no_range lo rest k h l = k (add s lo) rest h
  range-Ends (lone_hyphen rest') lo rest k h l = k (add s hyphen) rest' (omega arith)
  range-Ends (upto hi rest') lo rest k h l = upto-Ends (ltb hi lo) lo hi rest' k (omega arith)

  round-Ends :
      (o : Option (Member × List ℕ))
      → Next
      → Leaves m o
      → Ends n (elim o [
        | none ↦ refused
        | some (many e, rest) ↦ elim (shorthand e) [
          | none ↦ refused
          | some set ↦ next (union s set) rest
        ]
        | some (one lo, rest) ↦ elim (range_end rest) [
          | no_range ↦ next (add s lo) rest
          | lone_hyphen rest' ↦ next (add s hyphen) rest'
          | upto hi rest' ↦ elim (ltb hi lo) [
            | true ↦ refused
            | false ↦ next (add_range s lo hi) rest'
          ]
        ]
      ])
  unfolding Next
  round-Ends none k l = tt
  round-Ends (some (many e, rest)) k l = shorthand-Ends (shorthand e) rest k l
  round-Ends (some (one lo, rest)) k l =
      range-Ends (range_end rest) lo rest k l (range_end-Leaves rest)

-- Every round of parseClass takes a byte.
class_loop-Ends :
    (fuel : ℕ) (negated first : Bool) (s : CharSet) (p : List ℕ)
    → length p < fuel
    → Ends (length p) (class_loop fuel negated first s p)
unfolding class_loop Next
class_loop-Ends zero negated first s p h = absurd (omega arith)
class_loop-Ends (suc fuel) negated first s [] h = tt
class_loop-Ends (suc fuel) negated first s (c ∷ cs) h =
    Ends-if (suc (length cs)) (nat_eq c close_bracket && not first) _ _ (omega arith) (
      round-Ends (suc (length cs)) (length cs) (class_loop fuel negated false) s
        (class_atom (c ∷ cs))
        (λ s' p l.
          Ends-le (length p) (suc (length cs)) (class_loop fuel negated false s' p) (omega arith)
            (class_loop-Ends fuel negated false s' p (omega arith)))
        (class_atom-Leaves c cs))

parse_class-Ends : (p : List ℕ) → Ends (length p) (parse_class p)
unfolding parse_class
parse_class-Ends [] = class_loop-Ends 1 false true no_chars [] (omega arith)
parse_class-Ends (c ∷ cs) =
    Ends-if (suc (length cs)) (nat_eq c caret) _ _
      (Ends-le (length cs) (suc (length cs)) _ (omega arith)
        (class_loop-Ends (suc (length cs)) true true no_chars cs (omega arith)))
      (class_loop-Ends (suc (length (c ∷ cs))) false true no_chars (c ∷ cs) (omega arith))

escape_atom-Ends : (p : List ℕ) → Ends (length p) (escape_atom p)
unfolding escape_atom
escape_atom-Ends [] = tt
escape_atom-Ends (e ∷ cs) = go (escape_node e)
  where
    go :
        (o : Option ReNode)
        → Ends (suc (length cs)) (elim o [ none ↦ refused | some n ↦ read n cs ])
    go none = tt
    go (some n) = omega arith

pub plain_atom-Ends : (c : ℕ) (cs : List ℕ) → Ends (length cs) (plain_atom c cs)
unfolding plain_atom
plain_atom-Ends c cs =
    let n = length cs in
    Ends-if n (nat_eq c open_bracket) _ _ (parse_class-Ends cs) (
      Ends-if n (nat_eq c caret || nat_eq c dollar) _ _ (omega arith) (
        Ends-if n (nat_eq c dot) _ _ (omega arith) (
          Ends-if n (nat_eq c backslash) _ _ (escape_atom-Ends cs) (
            Ends-if n (nat_eq c star || nat_eq c plus || nat_eq c question) refused _ tt
              (omega arith)))))
