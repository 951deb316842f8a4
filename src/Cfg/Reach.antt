-- ===== src/Cfg/Reach.antt =====
-- Reaches and Reachable decide what they are named for.
use sast_engine.Prelude.{
  ◌+◌, String, ◌≡◌, refl, sym, ◌∙◌, ap, subst, Bool, true, false, some, List, [], ◌∷◌, StrSet,
  contains, contains-head, same, same_iff, same_self, length, is_some, arith, IsDistinct, ◌⊎◌, inl,
  inr, ◌↔◌, Option-cases,
}
use sast_engine.Ir.{Block}
use sast_engine.Worklist.{explore, find, Reach, root, edge}
use sast_engine.Worklist.Ends.{unspent, explore_total, find_total}
use sast_engine.Worklist.Search.{explore_iff, find_iff}
use sast_engine.Cfg.{Graph, get_block, successors, block_ids}
use sast_engine.Cfg.Build.{
  IsGraph, is_some-get_block, successors-none, successors-some, successors-cons,
}
use sast_engine.Cfg.Paths.{Leads, one, more, FromEntry}
use sast_engine.Cfg.Queries.{all_successors, or_false, reaches}
use sast_engine.Cfg.Dominance.{or_nobody, reached_from_entry, reachable}

-- A name that is no block has no successors.
pub block_or_none :
    (bs : List Block) (k : String) → (contains (block_ids bs) k ≡ true) ⊎ (successors bs k ≡ [])
block_or_none bs k = elim (Option-cases (get_block bs k)) [
  | inl n ↦ inr (successors-none bs k n)
  | inr (b, e) ↦ inl (sym (is_some-get_block bs k) ∙ ap is_some e)
]

-- What all the blocks together can put on the queue.
unspent-skip :
    (b : Block) (bs : List Block) (ks : List String)
    → contains ks b.id ≡ false
    → unspent (successors (b ∷ bs)) [] ks ≡ unspent (successors bs) [] ks
unfolding unspent contains
unspent-skip b bs [] n = refl
unspent-skip b bs (k ∷ ks) n =
    let rest = unspent-skip b bs ks (ground arith) in
    let ne : same b.id k ≡ false = ground (arith, same_iff k b.id, same_iff b.id k) in
    rw (successors-cons, ne, rest) refl

unspent-all :
    (bs : List Block)
    → IsDistinct (block_ids bs)
    → unspent (successors bs) [] (block_ids bs) ≡ all_successors bs
unfolding unspent block_ids all_successors contains
unspent-all [] d = refl
unspent-all (b ∷ bs) d =
    let own : successors (b ∷ bs) b.id ≡ b.successors = rw (successors-cons, same_self b.id) refl in
    omega (arith, unspent-skip b bs (block_ids bs) d.0, unspent-all bs d.1, ap length own)

module _ (g : Graph) (ok : IsGraph g) where
  Leads→Reach : {k j : String} → Leads g k j → Reach (successors g.blocks) (successors g.blocks k) j
  Leads→Reach (one k j m) = root j m
  Leads→Reach (more k j l r m) = edge j l (Leads→Reach r) m

  Reach→Leads :
      (k : String) {j : String}
      → Reach (successors g.blocks) (successors g.blocks k) j
      → Leads g k j
  Reach→Leads k (root j m) = one k j m
  Reach→Leads k (edge j l r m) = more k j l (Reach→Leads k r) m

  find_known :
      (from to : String)
      → (r : Bool) × (find
            (successors g.blocks)
            to
            (length (successors g.blocks from) + all_successors g.blocks)
            []
            (successors g.blocks from)
          ≡ some r)
  find_known from to =
      find_total (successors g.blocks) (block_ids g.blocks) (block_or_none g.blocks) to _ []
        (successors g.blocks from) (omega (arith, unspent-all g.blocks ok.distinct))

  -- the search from a block, as Reaches makes it
  searched :
      (from to : String) (b : Block)
      → get_block g.blocks from ≡ some b
      → (reaches g from to ≡ true) ↔ Leads g from to
  unfolding reaches or_false
  searched from to b e =
      let e' : successors g.blocks from ≡ b.successors = successors-some g.blocks from b e in
      let (r, f) = find_known from to in
      let iff = find_iff (successors g.blocks) (successors g.blocks from) to _ r f in
      rw (e, reaches)
        (rw (← e') (rw f (λ h. Reach→Leads from (iff.0 h), λ h. iff.1 (Leads→Reach h))))

  no-Leads : (from to : String) → successors g.blocks from ≡ [] → ¬ Leads g from to
  unfolding contains
  no-Leads from to e (one _ _ m) = let n : contains [] to ≡ true = rw e at m in cc
  no-Leads from to e (more _ j _ r m) = no-Leads from j e r

-- In a graph that is built, Reaches(from, to) holds exactly if one or more edges lead from `from` to
-- `to`; so the search never runs out of the rounds that the model allows.
pub reaches_iff :
    (g : Graph) → IsGraph g → (from to : String) → (reaches g from to ≡ true) ↔ Leads g from to
unfolding reaches
reaches_iff g ok from to = elim (Option-cases (get_block g.blocks from)) [
  | inl n ↦ (
    λ h. let h' : false ≡ true = rw (n, reaches) at h in cc,
    λ r. absurd (no-Leads g ok from to (successors-none g.blocks from n) r),
  )
  | inr (b, e) ↦ searched g ok from to b e
]

module _ (g : Graph) (ok : IsGraph g) where
  explored :
      (r : StrSet) × (explore (successors g.blocks) (1 + all_successors g.blocks) [] (g.entry ∷ [])
        ≡ some r)
  explored =
      explore_total (successors g.blocks) (block_ids g.blocks) (block_or_none g.blocks) _ []
        (g.entry ∷ []) (omega (arith, unspent-all g.blocks ok.distinct))

  Reach→FromEntry : {k : String} → Reach (successors g.blocks) (g.entry ∷ []) k → FromEntry g k
  unfolding contains
  Reach→FromEntry (root k m) = inl (sym ((same_iff g.entry k).0 (ground arith)))
  Reach→FromEntry (edge j k r m) = elim (Reach→FromEntry r) [
    | inl e ↦ inr (one g.entry k (subst (λ x. contains (successors g.blocks x) k ≡ true) e m))
    | inr l ↦ inr (more g.entry j k l m)
  ]

  Leads→entry_Reach :
      {k j : String} → Leads g k j → k ≡ g.entry → Reach (successors g.blocks) (g.entry ∷ []) j
  unfolding contains
  Leads→entry_Reach (one k j m) e =
      edge g.entry j (root g.entry (contains-head g.entry []))
        (subst (λ x. contains (successors g.blocks x) j ≡ true) e m)
  Leads→entry_Reach (more k j l r m) e = edge j l (Leads→entry_Reach r e) m

  FromEntry→Reach : (k : String) → FromEntry g k → Reach (successors g.blocks) (g.entry ∷ []) k
  FromEntry→Reach k (inl e) =
      root k (subst (λ x. contains (g.entry ∷ []) x ≡ true) (sym e) (contains-head g.entry []))
  FromEntry→Reach k (inr l) = Leads→entry_Reach l refl

-- In a graph that is built, Reachable(b) holds exactly if `b` is the entry or edges lead from the
-- entry to it.
pub reachable_iff : (g : Graph) → IsGraph g → (b : String) → (reachable g b ≡ true) ↔ FromEntry g b
unfolding reachable reached_from_entry or_nobody
reachable_iff g ok b =
    let (r, e) = explored g ok in
    let iff = explore_iff (successors g.blocks) (g.entry ∷ []) _ r e b in
    rw e (λ h. Reach→FromEntry g ok (iff.0 h), λ f. iff.1 (FromEntry→Reach g ok b f))
