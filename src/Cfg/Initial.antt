-- ===== src/Cfg/Initial.antt =====
-- The sets that the two dataflow loops start from.
use sast_engine.Prelude.{
  ◌≤◌, ◌<◌, String, ◌≡◌, refl, ◌∙◌, Bool, true, ◌||◌, List, [], ◌∷◌, StrSet, contains, same_self,
  if◌then◌else◌, length, is_some, arith, IsDistinct, length-append, contains-append,
  contains-insert, insert-IsDistinct, length-insert, same-cases, inl, inr,
}
use mathlib.Core.List.{reverse, reverse-cons}
use sast_engine.Fixpoint.{SetMap, update, get}
use sast_engine.Fixpoint.Transfer.{get-update, is_some-update}
use sast_engine.Cfg.{set_of, initial}

pub contains-set_of : (ids : List String) (k : String) → contains (set_of ids) k ≡ contains ids k
unfolding set_of contains
contains-set_of [] k = refl
contains-set_of (id ∷ ids) k = rw (contains-insert, contains-set_of ids k) refl

pub set_of-IsDistinct : (ids : List String) → IsDistinct (set_of ids)
unfolding set_of
set_of-IsDistinct [] = tt
set_of-IsDistinct (id ∷ ids) = insert-IsDistinct id (set_of ids) (set_of-IsDistinct ids)

pub length-set_of-le : (ids : List String) → length (set_of ids) ≤ length ids
unfolding set_of
length-set_of-le [] = omega arith
length-set_of-le (id ∷ ids) = omega (arith, length-insert id (set_of ids), length-set_of-le ids)

pub length_pos_of_contains :
    (ids : List String) (k : String) → contains ids k ≡ true → 0 < length ids
unfolding contains
length_pos_of_contains [] k h = cc
length_pos_of_contains (id ∷ ids) k h = omega arith

pub contains-reverse : (ids : List String) (k : String) → contains (reverse ids) k ≡ contains ids k
unfolding contains
contains-reverse [] k = refl
contains-reverse (id ∷ ids) k =
    rw (reverse-cons, contains-append, contains-reverse ids k) (ground arith)

pub length-reverse : (ids : List String) → length (reverse ids) ≡ length ids
length-reverse [] = refl
length-reverse (id ∷ ids) = rw (reverse-cons, length-append) (omega (arith, length-reverse ids))

module _ (own : String → Bool) (all : StrSet) where
  pub is_some-initial :
      (d : SetMap) (ids : List String) (k : String)
      → is_some (initial own all d ids k) ≡ (contains ids k || is_some (d k))
  unfolding initial contains
  is_some-initial d [] k = refl
  is_some-initial d (id ∷ ids) k =
      let v : StrSet = if own id then id ∷ [] else all in
      rw (is_some-initial (update d id v) ids k, is_some-update) (ground arith)

  pub get-initial :
      (d : SetMap) (ids : List String) (k : String)
      → get (initial own all d ids) k
        ≡ (if contains ids k then if own k then k ∷ [] else all else get d k)
  unfolding initial contains
  get-initial d [] k = refl
  get-initial d (id ∷ ids) k =
      let v : StrSet = if own id then id ∷ [] else all in
      get-initial (update d id v) ids k ∙ elim (same-cases id k) [
        | inl e ↦ rw (← e, get-update, same_self id) (ground arith)
        | inr e ↦ rw (get-update, e) refl
      ]
