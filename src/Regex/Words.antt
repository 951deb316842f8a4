-- ===== src/Regex/Words.antt =====
-- What core/internal/model/regexparse.go has to know of a text: whether it has a fragment, and
-- whether it begins or ends with the part of one.
use sast_engine.Prelude.{
  ℕ, ◌≡◌, refl, Bool, true, false, ◌&&◌, ◌||◌, List, [], ◌∷◌, ◌++◌, nat_eq, arith, if◌then◌else◌,
}
use sast_engine.Regex.{CharSet, union}
use sast_engine.Regex.Bytes.{one_of, is_empty}
use sast_engine.Regex.Summary.{joins_fragment}

unfoldable pub starts : ℕ → List ℕ → Bool
starts b [] = false
starts b (c ∷ cs) = nat_eq c b

unfoldable pub ends : ℕ → List ℕ → Bool
ends a [] = false
ends a (c ∷ cs) = if is_empty cs then nat_eq c a else ends a cs

unfoldable pub pair : ℕ → ℕ → List ℕ → Bool
pair a b [] = false
pair a b (c ∷ cs) = (nat_eq c a && starts b cs) || pair a b cs

-- A fragment of one byte or two stands in the text.
unfoldable pub has : List ℕ → List ℕ → Bool
has (a ∷ []) w = one_of w a
has (a ∷ b ∷ []) w = pair a b w
has _ w = false

-- the text begins with the second byte of a fragment of two, or ends with the first
unfoldable pub right_start : List ℕ → List ℕ → Bool
right_start (a ∷ b ∷ []) w = starts b w
right_start _ w = false

unfoldable pub left_end : List ℕ → List ℕ → Bool
left_end (a ∷ b ∷ []) w = ends a w
left_end _ w = false

unfoldable pub in_right : List ℕ → CharSet → Bool
in_right (a ∷ b ∷ []) s = s.ascii b
in_right _ s = false

unfoldable pub in_left : List ℕ → CharSet → Bool
in_left (a ∷ b ∷ []) s = s.ascii a
in_left _ s = false

pub is_empty-append : (u v : List ℕ) → is_empty (u ++ v) ≡ (is_empty u && is_empty v)
is_empty-append [] v = refl
is_empty-append (c ∷ u) v = refl

starts-append :
    (b : ℕ) (u v : List ℕ) → starts b (u ++ v) ≡ (starts b u || (is_empty u && starts b v))
unfolding starts
starts-append b [] v = refl
starts-append b (c ∷ u) v = ground arith

ends-append : (a : ℕ) (u v : List ℕ) → ends a (u ++ v) ≡ (ends a v || (is_empty v && ends a u))
unfolding ends
ends-append a [] v = ground arith
ends-append a (c ∷ u) v = ground (arith, ends-append a u v, is_empty-append u v, ends-nil v)
  where
    ends-nil : (v : List ℕ) → is_empty v ≡ true → ends a v ≡ false
    ends-nil [] e = refl
    ends-nil (d ∷ v) e = absurd (ground arith)

pub one_of-append : (c : ℕ) (u v : List ℕ) → one_of (u ++ v) c ≡ (one_of u c || one_of v c)
unfolding one_of
one_of-append c [] v = refl
one_of-append c (d ∷ u) v = ground (arith, one_of-append c u v)

pair-append :
    (a b : ℕ) (u v : List ℕ)
    → pair a b (u ++ v) ≡ (pair a b u || pair a b v || (ends a u && starts b v))
unfolding pair ends starts
pair-append a b [] v = ground arith
pair-append a b (c ∷ []) v = ground (arith, starts-append b [] v)
pair-append a b (c ∷ d ∷ u) v = ground (arith, pair-append a b (d ∷ u) v)

pub has-append :
    (f u v : List ℕ) → has f (u ++ v) ≡ (has f u || has f v || (left_end f u && right_start f v))
unfolding has left_end right_start
has-append [] u v = refl
has-append (a ∷ []) u v = ground (arith, one_of-append a u v)
has-append (a ∷ b ∷ []) u v = pair-append a b u v
has-append (a ∷ b ∷ c ∷ f) u v = refl

pub right_start-append :
    (f u v : List ℕ) → right_start f (u ++ v) ≡ (right_start f u || (is_empty u && right_start f v))
unfolding right_start
right_start-append [] u v = ground arith
right_start-append (a ∷ []) u v = ground arith
right_start-append (a ∷ b ∷ []) u v = starts-append b u v
right_start-append (a ∷ b ∷ c ∷ f) u v = ground arith

pub left_end-append :
    (f u v : List ℕ) → left_end f (u ++ v) ≡ (left_end f v || (is_empty v && left_end f u))
unfolding left_end
left_end-append [] u v = ground arith
left_end-append (a ∷ []) u v = ground arith
left_end-append (a ∷ b ∷ []) u v = ends-append a u v
left_end-append (a ∷ b ∷ c ∷ f) u v = ground arith

pub joins_fragment_lem :
    (f : List ℕ) (s t : CharSet) → joins_fragment s t f ≡ (in_left f s && in_right f t)
unfolding joins_fragment in_left in_right
joins_fragment_lem [] s t = refl
joins_fragment_lem (a ∷ []) s t = refl
joins_fragment_lem (a ∷ b ∷ []) s t = refl
joins_fragment_lem (a ∷ b ∷ c ∷ f) s t = refl

pub in_left-union :
    (f : List ℕ) (s t : CharSet) → in_left f (union s t) ≡ (in_left f s || in_left f t)
unfolding in_left union
in_left-union [] s t = refl
in_left-union (a ∷ []) s t = refl
in_left-union (a ∷ b ∷ []) s t = ground arith
in_left-union (a ∷ b ∷ c ∷ f) s t = refl

pub in_right-union :
    (f : List ℕ) (s t : CharSet) → in_right f (union s t) ≡ (in_right f s || in_right f t)
unfolding in_right union
in_right-union [] s t = refl
in_right-union (a ∷ []) s t = refl
in_right-union (a ∷ b ∷ []) s t = ground arith
in_right-union (a ∷ b ∷ c ∷ f) s t = refl

-- Of the empty text nothing of this holds.
pub has-nil : (f : List ℕ) → (has f [] || left_end f [] || right_start f []) ≡ false
unfolding has left_end right_start one_of pair ends starts
has-nil [] = refl
has-nil (a ∷ []) = refl
has-nil (a ∷ b ∷ []) = refl
has-nil (a ∷ b ∷ c ∷ f) = refl
