-- ===== src/CallGraph/Marks.antt =====
-- What marking names does to the names that are seen and to those that wait.
use sast_engine.Prelude.{
  ℕ, ◌+◌, ◌≤◌, String, ◌≡◌, inl, inr, true, false, ◌||◌, List, [], ◌∷◌, StrSet, insert, contains,
  same, same_iff, same_self, same_symm, if◌then◌else◌, length, length-append, contains-append,
  contains-insert, arith, Bool-cases,
}
use sast_engine.CallGraph.{Search, mark, mark_all}

-- how many names of a list are not yet seen
unfoldable pub unseen : StrSet → List String → ℕ
unseen seen [] = 0
unseen seen (k ∷ ks) = (if contains seen k then 0 else 1) + unseen seen ks

unseen-insert-le :
    (seen : StrSet) (id : String) (ks : List String) → unseen (insert id seen) ks ≤ unseen seen ks
unfolding unseen
unseen-insert-le seen id [] = omega arith
unseen-insert-le seen id (k ∷ ks) =
    ground (arith, contains-insert id seen k, unseen-insert-le seen id ks)

pub unseen-insert :
    (seen : StrSet) (id : String) (ks : List String)
    → contains seen id ≡ false
    → contains ks id ≡ true
    → unseen (insert id seen) ks + 1 ≤ unseen seen ks
unfolding unseen contains
unseen-insert seen id [] n m = absurd (ground arith)
unseen-insert seen id (k ∷ ks) n m = elim (Bool-cases (same k id)) [
  | inl e ↦
      let e' : k ≡ id = (same_iff k id).0 e in
      rw (e', contains-insert, same_self id, n) (omega (arith, unseen-insert-le seen id ks))
  | inr ne ↦ ground (arith, contains-insert id seen k, same_symm k id, unseen-insert seen id ks)
]

-- What a step from one state of the search to another keeps, where `ids` are the names it marks.
pub record Marked (ids : List String) (s t : Search) : Type 0 where
  pub seen : (k : String) → contains t.0 k ≡ (contains s.0 k || contains ids k)
  pub waits : (k : String) → contains s.1 k ≡ true → contains t.1 k ≡ true
  pub only : (k : String) → contains t.1 k ≡ true → (contains s.1 k || contains ids k) ≡ true
  pub new : (k : String) → contains t.0 k ≡ true → (contains s.0 k || contains t.1 k) ≡ true

mark-Marked : (id : String) (s : Search) → Marked (id ∷ []) s (mark id s)
unfolding mark contains
mark-Marked id (seen, queue) = elim (Bool-cases (contains seen id)) [
  | inl y ↦
      rw (y, mark)
        (record {
          seen = λ k. ground (arith, same_iff id k);
          waits = λ k m. m;
          only = λ k m. ground arith;
          new = λ k m. ground arith;
        })
  | inr n ↦
      rw (n, mark)
        (record {
          seen = λ k. ground (arith, contains-insert id seen k);
          waits = λ k m. ground (arith, contains-append queue (id ∷ []) k);
          only = λ k m. ground (arith, contains-append queue (id ∷ []) k);
          new = λ k m. ground (arith, contains-insert id seen k, contains-append queue (id ∷ []) k);
        })
]

pub mark_all-Marked : (ids : List String) (s : Search) → Marked ids s (mark_all ids s)
unfolding mark_all contains
mark_all-Marked [] s = record {
  seen = λ k. ground arith;
  waits = λ k m. m;
  only = λ k m. ground arith;
  new = λ k m. ground arith;
}
mark_all-Marked (id ∷ ids) s =
    let m = mark-Marked id s in
    let n = mark_all-Marked ids (mark id s) in
    record {
      seen = λ k. ground (arith, m.seen k, n.seen k);
      waits = λ k w. n.waits k (m.waits k w);
      only = λ k w. ground (arith, m.only k, n.only k w);
      new = λ k w. ground (arith, m.new k, n.new k w, n.waits k);
    }

mark-le :
    (id : String) (names : List String) (s : Search)
    → contains names id ≡ true
    → length (mark id s).1 + unseen (mark id s).0 names ≤ length s.1 + unseen s.0 names
unfolding mark
mark-le id names (seen, queue) m = elim (Bool-cases (contains seen id)) [
  | inl y ↦ rw (y, mark) (omega arith)
  | inr n ↦
      rw (n, mark) (omega (arith, length-append queue (id ∷ []), unseen-insert seen id names n m))
]

-- Marking known names does not raise what is still to be done.
pub mark_all-le :
    (ids names : List String) (s : Search)
    → ((k : String) → contains ids k ≡ true → contains names k ≡ true)
    → length (mark_all ids s).1 + unseen (mark_all ids s).0 names ≤ length s.1 + unseen s.0 names
unfolding mark_all contains
mark_all-le [] names s h = omega arith
mark_all-le (id ∷ ids) names s h = omega (
  arith,
  mark-le id names s (h id (ground (arith, same_self id))),
  mark_all-le ids names (mark id s) (λ k m. h k (ground arith)),
)
