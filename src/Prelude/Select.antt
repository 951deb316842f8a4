-- ===== src/Prelude/Select.antt =====
-- Loops that pick elements of a list, gather lists, or pass a state from element to element.
use sast_engine.Prelude.Tests.{if◌then◌else◌, Bool-cases, same_iff, same-cases}
use sast_engine.Prelude.Sets.{contains}
use Prim.Native.String.{String}
use mathlib.Core.Path.{◌≡◌, refl, sym, ap, ◌∙◌, subst}
use mathlib.Core.Logic.{◌⊎◌, inl, inr}
use mathlib.Core.Bool.{Bool, true}
use mathlib.Core.List.{List, [], ◌∷◌, ◌++◌, map, Memᴰ}
use mathlib.Core.List.Memᴰ.{not-nil, cases_cons, append_left, append_right}
use native.Mathlib.Omega.{arith}

module _ {ℓ} {A : Type ℓ} where
  unfoldable pub select : (A → Bool) → List A → List A
  select p [] = []
  select p (x ∷ xs) = let rest = select p xs in if p x then x ∷ rest else rest

  unfoldable pub each {ℓ'} : {S : Type ℓ'} → (A → S → S) → List A → S → S
  each f [] s = s
  each f (x ∷ xs) s = each f xs (f x s)

  unfoldable pub gather {ℓ'} : {B : Type ℓ'} → (A → List B) → List A → List B
  gather f [] = []
  gather f (x ∷ xs) = f x ++ gather f xs

  pub Memᴰ-select :
      (p : A → Bool) (xs : List A) (x : A) → Memᴰ x (select p xs) → Memᴰ x xs × (p x ≡ true)
  unfolding select
  Memᴰ-select p [] x m = absurd (not-nil m)
  Memᴰ-select p (y ∷ ys) x m = elim (Bool-cases (p y)) [
    | inl e ↦
        let m' : Memᴰ x (y ∷ select p ys) = rw e at m in
        elim (cases_cons m') [
          | inl h ↦ (Memᴰ.head h, ap p h ∙ e)
          | inr r ↦ let (r', h) = Memᴰ-select p ys x r in (Memᴰ.tail r', h)
        ]
    | inr n ↦ let (r, h) = Memᴰ-select p ys x (rw n at m) in (Memᴰ.tail r, h)
  ]

  -- what each step keeps holds after the loop
  pub each-induction {ℓ' κ} :
      {S : Type ℓ'} (P : S → Type κ) (f : A → S → S) (xs : List A) (s : S)
      → ((x : A) (t : S) → Memᴰ x xs → P t → P (f x t))
      → P s
      → P (each f xs s)
  unfolding each
  each-induction P f [] s h p = p
  each-induction P f (x ∷ xs) s h p =
      each-induction P f xs (f x s) (λ y t m. h y t (Memᴰ.tail m)) (h x s (Memᴰ.head refl) p)

  -- what one step brings about and each step keeps holds after the loop
  pub each-reaches {ℓ' κ} :
      {S : Type ℓ'} (P : S → Type κ) (f : A → S → S) (x : A) (xs : List A) (s : S)
      → ((y : A) (t : S) → P t → P (f y t))
      → ((t : S) → P (f x t))
      → Memᴰ x xs
      → P (each f xs s)
  unfolding each
  each-reaches P f x [] s keeps hits m = absurd (not-nil m)
  each-reaches P f x (y ∷ ys) s keeps hits m = elim (cases_cons m) [
    | inl h ↦ each-induction P f ys (f y s) (λ z t n. keeps z t) (subst (λ z. P (f z s)) h (hits s))
    | inr r ↦ each-reaches P f x ys (f y s) keeps hits r
  ]

  pub Memᴰ-append : (xs ys : List A) (x : A) → Memᴰ x (xs ++ ys) → Memᴰ x xs ⊎ Memᴰ x ys
  Memᴰ-append [] ys x m = inr m
  Memᴰ-append (y ∷ xs) ys x m = elim (cases_cons m) [
    | inl h ↦ inl (Memᴰ.head h)
    | inr r ↦ elim (Memᴰ-append xs ys x r) [ inl s ↦ inl (Memᴰ.tail s) | inr s ↦ inr s ]
  ]

module _ {ℓ} {A : Type ℓ} where
  pub Memᴰ-gather {ℓ'} :
      {B : Type ℓ'} (f : A → List B) (xs : List A) (y : B)
      → Memᴰ y (gather f xs)
      → (x : A) × Memᴰ x xs × Memᴰ y (f x)
  unfolding gather
  Memᴰ-gather f [] y m = absurd (not-nil m)
  Memᴰ-gather f (x ∷ xs) y m = elim (Memᴰ-append (f x) (gather f xs) y m) [
    | inl s ↦ (x, Memᴰ.head refl, s)
    | inr s ↦ let (z, n, t) = Memᴰ-gather f xs y s in (z, Memᴰ.tail n, t)
  ]

  pub gather-Memᴰ {ℓ'} :
      {B : Type ℓ'} (f : A → List B) (xs : List A) (x : A) (y : B)
      → Memᴰ x xs
      → Memᴰ y (f x)
      → Memᴰ y (gather f xs)
  unfolding gather
  gather-Memᴰ f [] x y m n = absurd (not-nil m)
  gather-Memᴰ f (z ∷ xs) x y m n = elim (cases_cons m) [
    | inl h ↦ append_left (gather f xs) (subst (λ w. Memᴰ y (f w)) h n)
    | inr r ↦ append_right (f z) (gather-Memᴰ f xs x y r n)
  ]

  pub map-Memᴰ {ℓ'} :
      {B : Type ℓ'} (f : A → B) (xs : List A) (x : A) → Memᴰ x xs → Memᴰ (f x) (map f xs)
  map-Memᴰ f [] x m = absurd (not-nil m)
  map-Memᴰ f (z ∷ xs) x m = elim (cases_cons m) [
    | inl h ↦ Memᴰ.head (ap f h)
    | inr r ↦ Memᴰ.tail (map-Memᴰ f xs x r)
  ]

  pub select-Memᴰ :
      (p : A → Bool) (xs : List A) (x : A) → Memᴰ x xs → p x ≡ true → Memᴰ x (select p xs)
  unfolding select
  select-Memᴰ p [] x m e = absurd (not-nil m)
  select-Memᴰ p (y ∷ ys) x m e = elim (cases_cons m) [
    | inl h ↦ rw (sym (ap p h) ∙ e) (Memᴰ.head h)
    | inr r ↦ elim (Bool-cases (p y)) [
      | inl f ↦ rw f (Memᴰ.tail (select-Memᴰ p ys x r e))
      | inr f ↦ rw f (select-Memᴰ p ys x r e)
    ]
  ]

pub Memᴰ→contains : (xs : List String) (x : String) → Memᴰ x xs → contains xs x ≡ true
unfolding contains
Memᴰ→contains [] x m = absurd (not-nil m)
Memᴰ→contains (y ∷ ys) x m = elim (cases_cons m) [
  | inl h ↦ let h' : y ≡ x = sym h in ground (arith, same_iff y x)
  | inr r ↦ ground (arith, Memᴰ→contains ys x r)
]

pub contains→Memᴰ : (xs : List String) (x : String) → contains xs x ≡ true → Memᴰ x xs
unfolding contains
contains→Memᴰ [] x h = cc
contains→Memᴰ (y ∷ ys) x h = elim (same-cases y x) [
  | inl e ↦ Memᴰ.head (sym e)
  | inr n ↦ Memᴰ.tail (contains→Memᴰ ys x (rw n at h))
]
