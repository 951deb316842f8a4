-- ===== src/Reachdef/Kill.antt =====
-- A definition that is killed for a use is dead there: on every path to the use, another definition
-- of the value runs before the use and after each run of the killed one.
use sast_engine.Prelude.{
  ℕ, zero, suc, ◌+◌, ◌<◌, String, ◌≡◌, refl, sym, ◌∙◌, ap, ap₂, subst, Bool, true, false, some,
  List, [], ◌∷◌, contains, same, same_iff, if◌then◌else◌, nat_eq, get_elem?, arith, Bool-cases,
  same-cases, ◌⊎◌, inl, inr, ◌≢◌,
}
use sast_engine.Ir.{Flow}
use sast_engine.Cfg.{Graph}
use sast_engine.Cfg.Build.{IsGraph}
use sast_engine.Cfg.Paths.{Edge, Leads, one, more, EntryPath, enter, along}
use sast_engine.Cfg.Reach.{reaches_iff}
use sast_engine.Cfg.Dom.{dominates_iff}
use sast_engine.Reachdef.{Use, dominates_use, can_reach, kills, survives, reaching_from, reaching}

-- the block at a position of a path, counted back from its end
abbrev pub At : List String → ℕ → String → Type 0
At w n b = get_elem? w n ≡ some b

position : (w : List String) (b : String) → contains w b ≡ true → (n : ℕ) × At w n b
unfolding contains
position [] b m = cc
position (x ∷ w) b m = elim (same-cases x b) [
  | inl e ↦ (zero, ap some e)
  | inr n ↦ let (i, a) = position w b (ground arith) in (suc i, a)
]

module _ (g : Graph) where
  Edge-Leads : {k j : String} → Edge g k j → Leads g k j
  Edge-Leads {k} {j} e = one k j e.0

  At-head : {k : String} {w : List String} → EntryPath g k w → At w zero k
  At-head enter = refl
  At-head (along k j w path e) = refl

  -- Control got from an earlier block of a path to its end.
  to_end :
      {k : String} {w : List String}
      → EntryPath g k w
      → (n : ℕ) (b : String) → At w (suc n) b
      → Leads g b k
  to_end enter n b a = absurd (ground arith)
  to_end (along k j w path e) zero b a =
      let q : k ≡ b = some_eq (sym (At-head path) ∙ a) in subst (λ x. Leads g x j) q (one k j e.0)
    where
      some_eq : {x y : String} → some x ≡ some y → x ≡ y
      some_eq h = cc
  to_end (along k j w path e) (suc n) b a = more b k j (to_end path n b a) e.0

  -- Control got from each block of a path to each later one.
  between :
      {k : String} {w : List String}
      → EntryPath g k w
      → (p q : ℕ) (y x : String) → p < q
      → At w p y
      → At w q x
      → Leads g x y
  between path zero zero y x lt ay ax = absurd (omega arith)
  between {k} path zero (suc q) y x lt ay ax =
      let e : k ≡ y = some_eq (sym (At-head path) ∙ ay) in subst (Leads g x) e (to_end path q x ax)
    where
      some_eq : {x y : String} → some x ≡ some y → x ≡ y
      some_eq h = cc
  between path (suc p) zero y x lt ay ax = absurd (omega arith)
  between enter (suc p) (suc q) y x lt ay ax = absurd (ground arith)
  between (along k j w path e) (suc p) (suc q) y x lt ay ax =
      between path p q y x (omega arith) ay ax

-- The definition `later` runs at position `q` of the path, before the use; and wherever `def` runs
-- on the path, it runs before that. (A later position is an earlier run; in one block the line says
-- which runs first.)
abbrev pub IsOverwritten : List String → Use → Flow → Flow → ℕ → Type 0
IsOverwritten w u def later q =
    At w q later.block
    × ((0 < q) ⊎ (later.loc.line < u.loc.line))
    × ((p : ℕ) → At w p def.block → (q < p) ⊎ (p ≡ q) × (def.loc.line < later.loc.line))

module _ (g : Graph) (ok : IsGraph g) (u : Use) (def later : Flow) where
  -- a later run of `def` than position `q` is one that `later` can reach
  no_rerun :
      can_reach g later def ≡ false
      → {w : List String} → EntryPath g u.block w
      → (q : ℕ) → At w q later.block
      → (p : ℕ) → At w p def.block
      → (q < p) ⊎ (p ≡ q) × (def.loc.line < later.loc.line)
  unfolding can_reach
  no_rerun c {w} path q aq p ap' = elim (compare_positions p q) [
    | inl after ↦ inl after
    | inr (inl eq) ↦
        let e : def.block ≡ later.block = same_at w p q def.block later.block eq ap' aq in
        inr (eq, ground (arith, same_iff later.block def.block))
    | inr (inr before) ↦
        let l = between g path p q def.block later.block before ap' aq in
        absurd (elim (same-cases later.block def.block) [
          | inl e ↦
              let r =
                (reaches_iff g ok later.block later.block).1
                  (subst (Leads g later.block) (sym e) l) in
              ground (arith, same_iff later.block def.block)
          | inr ne ↦ let r = (reaches_iff g ok later.block def.block).1 l in ground arith
        ])
  ]
    where
      compare_positions : (p q : ℕ) → (q < p) ⊎ (p ≡ q) ⊎ (p < q)
      compare_positions p q = grind arith

      same_at : (w : List String) (p q : ℕ) (x y : String) → p ≡ q → At w p x → At w q y → x ≡ y
      same_at w p q x y e a b = ground arith

  kills_sound :
      kills g u def later ≡ true
      → {w : List String} → EntryPath g u.block w
      → (q : ℕ) × IsOverwritten w u def later q
  unfolding kills dominates_use
  kills_sound h {w} path = elim (same-cases later.block u.block) [
    | inl e ↦
        let a : At w zero later.block = subst (At w zero) (sym e) (At-head g path) in
        (
          zero,
          (
            a,
            inr (ground (arith, same_iff later.block u.block)),
            no_rerun (ground arith) path zero a,
          ),
        )
    | inr ne ↦
        let dom = (dominates_iff g ok later.block u.block).0 (ground arith) in
        let (q, a) = position w later.block (dom.2 w path) in
        (q, (a, inl (positive q a ne), no_rerun (ground arith) path q a))
  ]
    where
      positive : (q : ℕ) → At w q later.block → same later.block u.block ≡ false → 0 < q
      positive zero a ne =
          let e : some later.block ≡ some u.block = sym a ∙ At-head g path in
          absurd (ground (arith, same_iff later.block u.block))
      positive (suc q) a ne = omega arith

unfoldable pub elem : ℕ → List ℕ → Bool
elem i [] = false
elem i (x ∷ xs) = if nat_eq x i then true else elem i xs

killer :
    (g : Graph) (u : Use) (i : ℕ) (def : Flow) (n : ℕ) (defs : List Flow)
    → survives g u i def n defs ≡ false
    → (j : ℕ) × (later : Flow) × (get_elem? defs j ≡ some later)
      × (n + j ≢ i)
      × (kills g u def later ≡ true)
unfolding survives
killer g u i def n [] h = cc
killer g u i def n (x ∷ defs) h = elim (Bool-cases (nat_eq n i)) [
  | inl e ↦
      let (j, later, a, ne, k) = killer g u i def (n + 1) defs (ground arith) in
      (suc j, later, a, omega arith, k)
  | inr m ↦ elim (Bool-cases (kills g u def x)) [
    | inl k ↦ (zero, x, refl, ground arith, k)
    | inr nk ↦
        let (j, later, a, ne, k) = killer g u i def (n + 1) defs (ground arith) in
        (suc j, later, a, omega arith, k)
  ]
]

not_below :
    (g : Graph) (defs : List Flow) (u : Use) (n i : ℕ) (rest : List Flow)
    → i < n
    → elem i (reaching_from g defs u n rest) ≡ false
unfolding reaching_from elem
not_below g defs u n i [] h = refl
not_below g defs u n i (x ∷ rest) h = ground (arith, not_below g defs u (n + 1) i rest)

elem_first :
    (n i : ℕ) (b : Bool) (later : List ℕ)
    → n ≡ i
    → elem i later ≡ false
    → elem i (if b then n ∷ later else later) ≡ b
unfolding elem
elem_first n i true later e f = ground arith
elem_first n i false later e f = f

elem-reaching_from :
    (g : Graph) (defs : List Flow) (u : Use) (n k i : ℕ) (rest : List Flow) (def : Flow)
    → n + k ≡ i
    → get_elem? rest k ≡ some def
    → elem i (reaching_from g defs u n rest) ≡ survives g u i def 0 defs
unfolding reaching_from elem
elem-reaching_from g defs u n k i [] def e a = absurd (ground arith)
elem-reaching_from g defs u n zero i (x ∷ rest) def e a =
    elem_first n i (survives g u n x 0 defs) (reaching_from g defs u (n + 1) rest) (omega arith)
      (not_below g defs u (n + 1) i rest (omega arith))
    ∙ ap₂ (λ (m : ℕ) (d : Flow). survives g u m d 0 defs) (omega arith) (some_eq a)
  where
    some_eq : {x y : Flow} → some x ≡ some y → x ≡ y
    some_eq h = cc
elem-reaching_from g defs u n (suc k) i (x ∷ rest) def e a =
    let ih = elem-reaching_from g defs u (n + 1) k i rest def (omega arith) a in ground arith

-- In a graph that is built: a definition that is not among those that reach a use has another
-- definition of the same value that, on every path from the entry to the use, runs before the use
-- and after each run of the one left out. So no execution reads what was left out.
pub reaching_sound :
    (g : Graph)
    → IsGraph g
    → (defs : List Flow) (u : Use) (i : ℕ) (def : Flow) → get_elem? defs i ≡ some def
    → elem i (reaching g defs u) ≡ false
    → (j : ℕ) × (later : Flow) × (get_elem? defs j ≡ some later)
      × (j ≢ i)
      × ((w : List String) → EntryPath g u.block w → (q : ℕ) × IsOverwritten w u def later q)
unfolding reaching
reaching_sound g ok defs u i def a out =
    let dead = sym (elem-reaching_from g defs u 0 i i defs def (omega arith) a) ∙ out in
    let (j, later, b, ne, k) = killer g u i def 0 defs dead in
    (j, later, b, (λ e. ne (omega arith)), λ w path. kills_sound g ok u def later k path)
