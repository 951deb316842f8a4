-- ===== src/Reachdef/Versions.antt =====
-- What the steps of splitValue change: places that are rewired, and versions that are fed.
use sast_engine.Prelude.{
  ℕ, String, ◌≡◌, refl, sym, ◌∙◌, true, Option, some, List, [], ◌∷◌, ◌++◌, nat_eq, get_elem?, arith,
  Bool-cases, Option-cases, ◌⊎◌, inl, inr,
}
use mathlib.Core.List.{Memᴰ}
use mathlib.Core.List.Memᴰ
use sast_engine.Ir.{Value, Flow}
use sast_engine.Reachdef.{Place}
use sast_engine.Reachdef.Kill.{elem}
use sast_engine.Reachdef.Split.{Rewrites, rewire, edges_to, same_key, new_version}

-- What a place reads instead, if it is rewired.
unfoldable pub wired : Rewrites → Place → Option String
wired s (Place.flow i) = s.flow_from i
wired s (Place.receiver i) = s.receiver i
wired s (Place.arg i j) = s.call_arg i j

pub wired-rewire :
    (s : Rewrites) (p q : Place) (id x : String)
    → wired (rewire s p id) q ≡ some x
    → ((p ≡ q) × (id ≡ x)) ⊎ (wired s q ≡ some x)
unfolding wired rewire
wired-rewire s (Place.flow i) (Place.flow k) id x h = ground arith
wired-rewire s (Place.flow i) (Place.receiver k) id x h = inr h
wired-rewire s (Place.flow i) (Place.arg k l) id x h = inr h
wired-rewire s (Place.receiver i) (Place.flow k) id x h = inr h
wired-rewire s (Place.receiver i) (Place.receiver k) id x h = ground arith
wired-rewire s (Place.receiver i) (Place.arg k l) id x h = inr h
wired-rewire s (Place.arg i j) (Place.flow k) id x h = inr h
wired-rewire s (Place.arg i j) (Place.receiver k) id x h = inr h
wired-rewire s (Place.arg i j) (Place.arg k l) id x h = ground arith

pub added-rewire : (s : Rewrites) (p : Place) (id : String) → (rewire s p id).added ≡ s.added
unfolding rewire
added-rewire s (Place.flow i) id = refl
added-rewire s (Place.receiver i) id = refl
added-rewire s (Place.arg i j) id = refl

pub wired-new :
    (v : Value) (defs : List Flow) (key : List ℕ) (id : String) (s : Rewrites) (q : Place)
    → wired (new_version v defs key id s) q ≡ wired s q
unfolding wired new_version
wired-new v defs key id s (Place.flow i) = refl
wired-new v defs key id s (Place.receiver i) = refl
wired-new v defs key id s (Place.arg i j) = refl

-- The version `id` is fed by every definition whose number is in the list.
abbrev pub Feeds : List Flow → String → List Flow → List ℕ → Type 0
Feeds added id defs key =
    (k : ℕ) (def : Flow)
    → elem k key ≡ true
    → get_elem? defs k ≡ some def
    → Memᴰ (record def { to = id }) added

pub edges_to-Feeds :
    (id : String) (defs : List Flow) (key : List ℕ) → Feeds (edges_to id defs key) id defs key
unfolding edges_to elem
edges_to-Feeds id defs [] k def m a = cc
edges_to-Feeds id defs (i ∷ is) k def m a = elim (Option-cases (get_elem? defs i)) [
  | inl n ↦
      let m' : elem k is ≡ true = ground arith in
      rw (n, edges_to) (edges_to-Feeds id defs is k def m' a)
  | inr (d, e) ↦ elim (Bool-cases (nat_eq i k)) [
    | inl q ↦
        let i_k : i ≡ k = ground arith in
        let same_def : some d ≡ some def = sym e ∙ rw i_k a in
        let f : record def { to = id } ≡ record d { to = id } = cc in rw (e, edges_to) (Memᴰ.head f)
    | inr ne ↦
        let m' : elem k is ≡ true = ground arith in
        rw (e, edges_to) (Memᴰ.tail (edges_to-Feeds id defs is k def m' a))
  ]
]

pub same_key-eq : (xs ys : List ℕ) → same_key xs ys ≡ true → xs ≡ ys
unfolding same_key
same_key-eq [] [] h = refl
same_key-eq [] (y ∷ ys) h = cc
same_key-eq (x ∷ xs) [] h = cc
same_key-eq (x ∷ xs) (y ∷ ys) h = ground (arith, same_key-eq xs ys)

pub Feeds-append :
    (added more : List Flow) (id : String) (defs : List Flow) (key : List ℕ)
    → Feeds added id defs key
    → Feeds (added ++ more) id defs key
Feeds-append added more id defs key f k def m a = Memᴰ.append_left more (f k def m a)
