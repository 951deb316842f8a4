-- ===== src/Cfg/Listed.antt =====
-- Repetitions lists the marked loops that a block repeats in.
use sast_engine.Prelude.{
  String, ◌≡◌, sym, ◌∙◌, ap, ◌⊎◌, inl, inr, ◌↔◌, true, not, ◌||◌, some, List, [], ◌∷◌, contains,
  subst, arith, Bool-cases, Option-cases, same-cases, is_some,
}
use mathlib.Core.List.{Memᴰ}
use sast_engine.Ir.{Block}
use sast_engine.Cfg.{Graph, get_block}
use sast_engine.Cfg.Build.{IsGraph, is_some-get_block}
use sast_engine.Cfg.Paths.{FromEntry, InLoop}
use sast_engine.Cfg.Dominance.{reachable}
use sast_engine.Cfg.Reach.{reachable_iff}
use sast_engine.Cfg.Loops.{Repetition, repetitions, repetitions_in, natural_loop}
use sast_engine.Cfg.Repeated.{natural_loop_iff}

-- The block repeats in the marked loop of a header, which control can reach.
pub record RepeatsIn (g : Graph) (block : String) (r : Repetition) : Type 0 where
  pub header : Block
  pub found : get_block g.blocks r.header ≡ some header
  pub marked : header.loop_header ≡ true
  pub bound : r.bound ≡ header.loop_bound
  pub reached : FromEntry g r.header
  pub member : InLoop g r.header block

uncons {ℓ} : {A : Type ℓ} (a x : A) (xs : List A) → Memᴰ a (x ∷ xs) → (a ≡ x) ⊎ Memᴰ a xs
uncons a x xs (Memᴰ.head e) = inl e
uncons a x xs (Memᴰ.tail m) = inr m

module _ (g : Graph) (ok : IsGraph g) (block : String) where
  repeats_in :
      (r : Repetition) (id : String) (b : Block)
      → get_block g.blocks id ≡ some b
      → b.loop_header ≡ true
      → reachable g id ≡ true
      → contains (natural_loop g id) block ≡ true
      → r ≡ record { header = id; bound = b.loop_bound }
      → RepeatsIn g block r
  repeats_in r id b e m y l f =
      let h : id ≡ r.header = sym (ap (λ (x : Repetition). x.header) f) in
      record {
        header = b;
        found = subst (λ x. get_block g.blocks x ≡ some b) h e;
        marked = m;
        bound = ap (λ (x : Repetition). x.bound) f;
        reached = subst (FromEntry g) h ((reachable_iff g ok id).0 y);
        member = subst (λ x. InLoop g x block) h ((natural_loop_iff g ok id block).0 l);
      }

  taken :
      (r : Repetition) (id : String) (ids : List String)
      → Memᴰ r (repetitions_in g block (id ∷ ids))
      → RepeatsIn g block r ⊎ Memᴰ r (repetitions_in g block ids)
  unfolding repetitions_in
  taken r id ids m = elim (Option-cases (get_block g.blocks id)) [
    | inl n ↦ inr (rw (n, repetitions_in) at m)
    | inr (b, e) ↦ elim (Bool-cases (not b.loop_header || not (reachable g id))) [
      | inl out ↦ inr (rw (e, out, repetitions_in) at m)
      | inr kept ↦ elim (Bool-cases (not (contains (natural_loop g id) block))) [
        | inl out ↦ inr (rw (e, kept, out, repetitions_in) at m)
        | inr here ↦
            let m' : Memᴰ r
                (record { header = id; bound = b.loop_bound } ∷ repetitions_in g block ids) =
              rw (e, kept, here, repetitions_in) at m in
            elim (uncons r (record { header = id; bound = b.loop_bound })
              (repetitions_in g block ids) m') [
                | inl f ↦ inl (repeats_in r id b e (ground arith) (ground arith) (ground arith) f)
                | inr later ↦ inr later
              ]
      ]
    ]
  ]

  sound :
      (ids : List String) (r : Repetition)
      → Memᴰ r (repetitions_in g block ids)
      → RepeatsIn g block r
  unfolding repetitions_in
  sound [] r m = elim m [ ]
  sound (id ∷ ids) r m = elim (taken r id ids m) [ inl i ↦ i | inr later ↦ sound ids r later ]

  listed :
      (ids : List String) (r : Repetition)
      → RepeatsIn g block r
      → Memᴰ r (repetitions_in g block (r.header ∷ ids))
  unfolding repetitions_in
  listed ids r i =
      let y : reachable g r.header ≡ true = (reachable_iff g ok r.header).1 i.reached in
      let l : contains (natural_loop g r.header) block ≡ true =
        (natural_loop_iff g ok r.header block).1 i.member in
      rw (i.found, i.marked, y, l, repetitions_in)
        (Memᴰ.head (ap (λ x. record { header = r.header; bound = x }) i.bound))

  passed :
      (id : String) (ids : List String) (r : Repetition)
      → Memᴰ r (repetitions_in g block ids)
      → Memᴰ r (repetitions_in g block (id ∷ ids))
  unfolding repetitions_in
  passed id ids r m = elim (Option-cases (get_block g.blocks id)) [
    | inl n ↦ rw (n, repetitions_in) m
    | inr (b, e) ↦ elim (Bool-cases (not b.loop_header || not (reachable g id))) [
      | inl out ↦ rw (e, out, repetitions_in) m
      | inr kept ↦ elim (Bool-cases (not (contains (natural_loop g id) block))) [
        | inl out ↦ rw (e, kept, out, repetitions_in) m
        | inr here ↦ rw (e, kept, here, repetitions_in) (Memᴰ.tail m)
      ]
    ]
  ]

  complete :
      (ids : List String) (r : Repetition)
      → contains ids r.header ≡ true
      → RepeatsIn g block r
      → Memᴰ r (repetitions_in g block ids)
  unfolding contains
  complete [] r c i = absurd (ground arith)
  complete (id ∷ ids) r c i = elim (same-cases id r.header) [
    | inl e ↦ subst (λ x. Memᴰ r (repetitions_in g block (x ∷ ids))) (sym e) (listed ids r i)
    | inr n ↦ passed id ids r (complete ids r (ground arith) i)
  ]

-- In a graph that is built, Repetitions(block) lists exactly the marked loops that the block repeats
-- in, with their bounds, if control can reach the block.
pub repetitions_iff :
    (g : Graph)
    → IsGraph g
    → (block : String) (r : Repetition)
    → Memᴰ r (repetitions g block) ↔ (FromEntry g block × RepeatsIn g block r)
unfolding repetitions
repetitions_iff g ok block r = elim (Bool-cases (reachable g block)) [
  | inl y ↦
      rw (y, repetitions)
        (
          λ m. ((reachable_iff g ok block).0 y, sound g ok block g.order r m),
          λ (f, i).
              complete g ok block g.order r
                (ok.listed r.header
                  ∙ sym (is_some-get_block g.blocks r.header)
                  ∙ ap is_some i.found)
                i,
        )
  | inr n ↦
      rw (n, repetitions)
        (
          λ m. elim m [ ],
          λ (f, i).
              let y : reachable g block ≡ true = (reachable_iff g ok block).1 f in
              absurd (ground arith),
        )
]
