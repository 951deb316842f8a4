-- ===== src/Regex/Covers.antt =====
-- A summary of core/internal/model/regexparse.go covers a text if it answers for what the text is:
-- how the steps of the summaries keep this.
use sast_engine.Prelude.{
  ℕ, zero, suc, ◌<◌, ◌≡◌, refl, Bool, true, false, ◌&&◌, ◌||◌, List, [], ◌∷◌, ◌++◌, ltb, arith,
  Bool-cases, inl, inr, subst, sym,
}
use sast_engine.Regex.{CharSet, Quantity}
use sast_engine.Regex.Bytes.{one_of, is_empty}
use sast_engine.Regex.Summary.{Summary, empty_text, or_else, and_then, repeat, union_if}
use sast_engine.Regex.Matching.{in_set, all_in, counts, Copies, Language}
use sast_engine.Regex.Words.{
  has, right_start, left_end, in_right, in_left, has-append, right_start-append, left_end-append,
  joins_fragment_lem, in_left-union, in_right-union, has-nil, is_empty-append, starts, ends,
}

pub record Covers (f : List ℕ) (s : Summary) (w : List ℕ) : Type 0 where
  pub nullable : is_empty w ≡ true → s.nullable ≡ true
  pub first : right_start f w ≡ true → in_right f s.first ≡ true
  pub last : left_end f w ≡ true → in_left f s.last ≡ true
  pub contains : has f w ≡ true → s.contains ≡ true

pub Covers-empty : (f : List ℕ) → Covers f empty_text []
Covers-empty f = record {
  nullable = λ e. refl;
  first = λ e. absurd (ground (arith, has-nil f));
  last = λ e. absurd (ground (arith, has-nil f));
  contains = λ e. absurd (ground (arith, has-nil f));
}

pub Covers-left :
    (f : List ℕ) (s t : Summary) (w : List ℕ) → Covers f s w → Covers f (or_else s t) w
unfolding or_else
Covers-left f s t w c = record {
  nullable = λ e. ground (arith, c.nullable e);
  first = λ e. ground (arith, c.first e, in_right-union f s.first t.first);
  last = λ e. ground (arith, c.last e, in_left-union f s.last t.last);
  contains = λ e. ground (arith, c.contains e);
}

pub Covers-right :
    (f : List ℕ) (s t : Summary) (w : List ℕ) → Covers f t w → Covers f (or_else s t) w
unfolding or_else
Covers-right f s t w c = record {
  nullable = λ e. ground (arith, c.nullable e);
  first = λ e. ground (arith, c.first e, in_right-union f s.first t.first);
  last = λ e. ground (arith, c.last e, in_left-union f s.last t.last);
  contains = λ e. ground (arith, c.contains e);
}

in_right-union_if :
    (b : Bool) (f : List ℕ) (s t : CharSet)
    → in_right f (union_if b s t) ≡ (in_right f s || (b && in_right f t))
in_right-union_if true f s t = in_right-union f s t
in_right-union_if false f s t = ground arith

in_left-union_if :
    (b : Bool) (f : List ℕ) (s t : CharSet)
    → in_left f (union_if b s t) ≡ (in_left f s || (b && in_left f t))
in_left-union_if true f s t = in_left-union f s t
in_left-union_if false f s t = ground arith

pub Covers-and_then :
    (f : List ℕ) (s t : Summary) (u v : List ℕ)
    → Covers f s u
    → Covers f t v
    → Covers f (and_then f s t) (u ++ v)
unfolding and_then
Covers-and_then f s t u v c d = record {
  nullable = λ e. ground (arith, c.nullable, d.nullable, is_empty-append u v);
  first = λ e. ground (
    arith,
    c.first,
    c.nullable,
    d.first,
    right_start-append f u v,
    in_right-union_if s.nullable f s.first t.first,
  );
  last = λ e. ground (
    arith,
    c.last,
    d.nullable,
    d.last,
    left_end-append f u v,
    in_left-union_if t.nullable f t.last s.last,
  );
  contains = λ e. ground (
    arith,
    c.contains,
    d.contains,
    c.last,
    d.first,
    has-append f u v,
    joins_fragment_lem f s.last t.first,
  );
}

not_empty-right_start : (f w : List ℕ) → is_empty w ≡ true → right_start f w ≡ false
not_empty-right_start f [] e = ground (arith, has-nil f)
not_empty-right_start f (c ∷ w) e = absurd (ground arith)

-- The summary of a repeated text: as that of one copy, but for the number of copies.
module _ (f : List ℕ) (s : Summary) (l : Language)
    (cov : (b w a : List ℕ) → l b w a → Covers f s w) where
  pub record CoversMany (n : ℕ) (w : List ℕ) : Type 0 where
    none : n ≡ 0 → is_empty w ≡ true
    nullable : is_empty w ≡ true → 0 < n → s.nullable ≡ true
    first : right_start f w ≡ true → in_right f s.first ≡ true
    last : left_end f w ≡ true → in_left f s.last ≡ true
    contains :
        has f w ≡ true
        → s.contains ≡ false
        → (1 < n) × (in_left f s.last ≡ true) × (in_right f s.first ≡ true)

  many-none : CoversMany 0 []
  many-none = record {
    none = λ e. refl;
    nullable = λ e h. elim h [ ];
    first = λ e. absurd (ground (arith, has-nil f));
    last = λ e. absurd (ground (arith, has-nil f));
    contains = λ e n. absurd (ground (arith, has-nil f));
  }

  many-more : (n : ℕ) (u v : List ℕ) → Covers f s u → CoversMany n v → CoversMany (suc n) (u ++ v)
  many-more n u v c i = record {
    none = λ e. absurd (omega arith);
    nullable = λ e h. ground (arith, c.nullable, is_empty-append u v);
    first = λ e. ground (arith, c.first, i.first, right_start-append f u v);
    last = λ e. ground (arith, c.last, i.last, left_end-append f u v);
    contains = λ e n'. elim (Bool-cases (has f v)) [
      | inl old ↦ let r = i.contains old n' in (omega (arith, r.0), r.1, r.2)
      | inr new ↦ elim (Bool-cases (has f u)) [
        | inl h ↦ absurd (ground (arith, c.contains h))
        | inr h' ↦ (
          ground (arith, i.none, not_empty-right_start f v, has-append f u v),
          ground (arith, c.last, has-append f u v),
          ground (arith, i.first, has-append f u v),
        )
      ]
    ];
  }

  pub copies : (n : ℕ) (b w a : List ℕ) → Copies l n b w a → CoversMany n w
  unfolding Copies
  copies zero b w a e = subst (CoversMany 0) (sym e) many-none
  copies (suc n) b w a (u, v, e, m, ms) =
      subst (CoversMany (suc n)) (sym e)
        (many-more n u v (cov b u (v ++ a) m) (copies n (b ++ u) v a ms))

  pub Covers-repeat :
      (q : Quantity) (n : ℕ) (b w a : List ℕ)
      → counts q n ≡ true
      → Copies l n b w a
      → Covers f (repeat f q s) w
  unfolding repeat counts
  Covers-repeat q zero b w a h cs =
      let i = copies zero b w a cs in
      record {
        nullable = λ e. ground arith;
        first = λ e. i.first e;
        last = λ e. i.last e;
        contains = λ e. ground (arith, i.contains e);
      }
  Covers-repeat q (suc zero) b w a h cs =
      let i = copies 1 b w a cs in
      record {
        nullable = λ e. ground (arith, i.nullable e);
        first = λ e. i.first e;
        last = λ e. i.last e;
        contains = λ e. ground (arith, i.contains e);
      }
  Covers-repeat q (suc (suc n)) b w a h cs =
      let i = copies (suc (suc n)) b w a cs in
      record {
        nullable = λ e. ground (arith, i.nullable e);
        first = λ e. i.first e;
        last = λ e. i.last e;
        contains = λ e. ground (arith, i.contains e, joins_fragment_lem f s.last s.first);
      }

pub all_in-ends :
    (s : CharSet) (c : ℕ) (w : List ℕ)
    → c < 128
    → all_in s w ≡ true
    → ends c w ≡ true
    → s.ascii c ≡ true
unfolding ends all_in in_set
all_in-ends s c [] h a e = absurd (ground arith)
all_in-ends s c (d ∷ w) h a e = ground (arith, all_in-ends s c w h)

pub all_in-starts :
    (s : CharSet) (c : ℕ) (w : List ℕ)
    → c < 128
    → all_in s w ≡ true
    → starts c w ≡ true
    → s.ascii c ≡ true
unfolding starts all_in in_set
all_in-starts s c [] h a e = absurd (ground arith)
all_in-starts s c (d ∷ w) h a e = ground arith

pub all_in-one_of :
    (s : CharSet) (c : ℕ) (w : List ℕ)
    → c < 128
    → all_in s w ≡ true
    → one_of w c ≡ true
    → s.ascii c ≡ true
unfolding one_of all_in in_set
all_in-one_of s c [] h a e = absurd (ground arith)
all_in-one_of s c (d ∷ w) h a e = ground (arith, all_in-one_of s c w h)

-- A fragment of ASCII bytes, the only ones that Go can look up in the bitmap.
unfoldable pub all_ascii : List ℕ → Bool
all_ascii [] = true
all_ascii (c ∷ cs) = ltb c 128 && all_ascii cs
