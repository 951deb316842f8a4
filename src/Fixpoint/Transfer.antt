-- ===== src/Fixpoint/Transfer.antt =====
-- One step of the dataflow: which keys the intersection of the inputs has.
use sast_engine.Prelude.{
  String, ◌≡◌, refl, ◌↔◌, inl, inr, Bool, true, false, ◌&&◌, Option, none, some, is_some, List, [],
  ◌∷◌, StrSet, contains, keep, same, same_iff, same_self, if◌then◌else◌, arith, contains-insert,
  contains-keep, IsDistinct, insert-IsDistinct, keep-IsDistinct, Bool-cases,
}
use sast_engine.Fixpoint.{SetMap, update, get, Problem, narrow, or_empty, meet, transfer}

pub get-update :
    (d : SetMap) (k : String) (v : StrSet) (j : String)
    → get (update d k v) j ≡ (if same k j then v else get d j)
unfolding get update
get-update d k v j = elim (Bool-cases (same k j)) [
  | inl h ↦ rw (h, get, update) refl
  | inr h ↦ rw (h, get, update) refl
]

pub is_some-update :
    (d : SetMap) (k : String) (v : StrSet) (j : String)
    → is_some (update d k v j) ≡ (if same k j then true else is_some (d j))
unfolding update
is_some-update d k v j = elim (Bool-cases (same k j)) [
  | inl h ↦ rw (h, update) refl
  | inr h ↦ rw (h, update) refl
]

pub get-update_self : (d : SetMap) (k : String) (v : StrSet) → get (update d k v) k ≡ v
get-update_self d k v = ground (arith, get-update d k v k, same_self k)

module _ (p : Problem) (d : SetMap) where
  -- Some input counts.
  pub any_admitted : List String → Bool
  any_admitted [] = false
  any_admitted (k ∷ ks) = if p.admit d k then true else any_admitted ks

  -- Every input that counts has the key.
  pub in_all : String → List String → Bool
  in_all a [] = true
  in_all a (k ∷ ks) = (if p.admit d k then contains (get d k) a else true) && in_all a ks

  meet-some :
      (ks : List String) (s : StrSet) (a : String)
      → contains (or_empty (meet p d ks (some s))) a ≡ (contains s a && in_all a ks)
  unfolding meet narrow in_all or_empty
  meet-some [] s a = ground arith
  meet-some (k ∷ ks) s a = elim (Bool-cases (p.admit d k)) [
    | inl h ↦
        rw (h, meet-some ks (keep (contains (get d k)) s) a)
          (ground (arith, contains-keep (contains (get d k)) s a))
    | inr h ↦ rw (h, meet-some ks s a) (ground arith)
  ]

  meet-none :
      (ks : List String) (a : String)
      → contains (or_empty (meet p d ks none)) a ≡ (any_admitted ks && in_all a ks)
  unfolding meet narrow in_all any_admitted or_empty contains
  meet-none [] a = refl
  meet-none (k ∷ ks) a = elim (Bool-cases (p.admit d k)) [
    | inl h ↦ rw h (meet-some ks (get d k) a)
    | inr h ↦ rw (h, meet-none ks a) (ground arith)
  ]

  pub contains-transfer :
      (k a : String)
      → contains (transfer p d k) a
        ≡ (if same k a then true else any_admitted (p.inputs k) && in_all a (p.inputs k))
  unfolding transfer
  contains-transfer k a = rw (contains-insert, meet-none) refl

  pub in_all_iff :
      (a : String) (ks : List String)
      → (in_all a ks ≡ true)
        ↔ ((k : String) → contains ks k ≡ true → p.admit d k ≡ true → contains (get d k) a ≡ true)
  unfolding in_all contains
  in_all_iff a [] = (λ h k m. cc, λ h. refl)
  in_all_iff a (x ∷ xs) = (
    λ h k m e. ground (arith, same_iff x k, (in_all_iff a xs).0 (ground arith) k),
    λ h. ground (arith, h x, same_self x, (in_all_iff a xs).1 (λ k m e. h k (ground arith) e)),
  )

  pub any_admitted_iff :
      (ks : List String)
      → (any_admitted ks ≡ true) ↔ ((k : String) × (contains ks k ≡ true) × (p.admit d k ≡ true))
  unfolding any_admitted contains
  any_admitted_iff [] = (λ h. cc, λ (k, m, e). cc)
  any_admitted_iff (x ∷ xs) = (
    λ h. elim (Bool-cases (p.admit d x)) [
      | inl e ↦ (x, ground (arith, same_self x), e)
      | inr e ↦ let (k, m, f) = (any_admitted_iff xs).0 (ground arith) in (k, ground arith, f)
    ],
    λ (k, m, e). elim (Bool-cases (p.admit d x)) [
      | inl f ↦ rw f refl
      | inr f ↦ rw f ((any_admitted_iff xs).1 (k, ground (arith, same_iff x k), e))
    ],
  )

  narrow-IsDistinct :
      (next : Option StrSet) (s : StrSet)
      → IsDistinct s
      → IsDistinct (or_empty next)
      → IsDistinct (narrow next s)
  unfolding narrow or_empty
  narrow-IsDistinct none s h n = h
  narrow-IsDistinct (some t) s h n = keep-IsDistinct (contains s) t n

  meet-IsDistinct :
      (ks : List String) (next : Option StrSet)
      → ((k : String) → IsDistinct (get d k))
      → IsDistinct (or_empty next)
      → IsDistinct (or_empty (meet p d ks next))
  unfolding meet
  meet-IsDistinct [] next h n = n
  meet-IsDistinct (k ∷ ks) next h n = elim (Bool-cases (p.admit d k)) [
    | inl e ↦ rw e (
        meet-IsDistinct ks (some (narrow next (get d k))) h
          (unfold or_empty in narrow-IsDistinct next (get d k) (h k) n))
    | inr e ↦ rw e (meet-IsDistinct ks next h n)
  ]

  pub transfer-IsDistinct :
      (k : String) → ((j : String) → IsDistinct (get d j)) → IsDistinct (transfer p d k)
  unfolding transfer or_empty
  transfer-IsDistinct k h = insert-IsDistinct k _ (meet-IsDistinct (p.inputs k) none h tt)
