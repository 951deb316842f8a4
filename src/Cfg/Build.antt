-- ===== src/Cfg/Build.antt =====
-- What `Build` makes of a function: block names are the keys, and predecessors are the edges
-- between known blocks turned round, in whatever order Go visits the map.
use sast_engine.Prelude.{
  String, ◌≡◌, refl, sym, ◌∙◌, ap, subst, Bool, true, false, ◌&&◌, ◌||◌, none, some, List, [], ◌∷◌,
  contains, same, same_iff, if◌then◌else◌, nat_eq, length, is_some, arith, IsDistinct,
  contains-append, Bool-cases, inl, inr,
}
use mathlib.Core.Logic.{∥∥₁_elim}
use mathlib.Core.Bool.{Bool-set}
use mathlib.Core.List.{Perm, Permᴰ, foldl}
use sast_engine.Ir.{Block, Function}
use sast_engine.Cfg.{
  Graph, Lists, put_block, get_block, successors, append_at, add_preds, all_preds, block_ids,
  graph_of, build, or_nothing, compute_post_dominators,
}

pub is_some-get_block :
    (bs : List Block) (k : String) → is_some (get_block bs k) ≡ contains (block_ids bs) k
unfolding get_block block_ids contains
is_some-get_block [] k = refl
is_some-get_block (b ∷ bs) k = ground (arith, is_some-get_block bs k)

pub get_block-id : (bs : List Block) (k : String) (b : Block) → get_block bs k ≡ some b → b.id ≡ k
unfolding get_block
get_block-id [] k b h = cc
get_block-id (c ∷ bs) k b h = ground (arith, same_iff c.id k, get_block-id bs k b)

pub successors-none : (bs : List Block) (k : String) → get_block bs k ≡ none → successors bs k ≡ []
unfolding successors
successors-none bs k e = rw (e, successors) refl

pub successors-some :
    (bs : List Block) (k : String) (b : Block)
    → get_block bs k ≡ some b
    → successors bs k ≡ b.successors
unfolding successors
successors-some bs k b e = rw (e, successors) refl

pub successors-cons :
    (b : Block) (bs : List Block) (k : String)
    → successors (b ∷ bs) k ≡ (if same b.id k then b.successors else successors bs k)
unfolding successors get_block
successors-cons b bs k = ground arith

get_block-put :
    (bs : List Block) (b : Block) (k : String)
    → get_block (put_block bs b) k ≡ (if same b.id k then some b else get_block bs k)
unfolding get_block put_block
get_block-put [] b k = refl
get_block-put (c ∷ bs) b k =
    ground (arith, get_block-put bs b k, same_iff c.id b.id, same_iff c.id k, same_iff b.id k)

contains-put :
    (bs : List Block) (b : Block) (k : String)
    → contains (block_ids (put_block bs b)) k ≡ (same b.id k || contains (block_ids bs) k)
unfolding block_ids put_block contains
contains-put [] b k = ground arith
contains-put (c ∷ bs) b k =
    ground (arith, contains-put bs b k, same_iff c.id b.id, same_iff c.id k, same_iff b.id k)

put-IsDistinct :
    (bs : List Block) (b : Block)
    → IsDistinct (block_ids bs)
    → IsDistinct (block_ids (put_block bs b))
unfolding block_ids put_block contains
put-IsDistinct [] b d = (refl, tt)
put-IsDistinct (c ∷ bs) b d =
    ground
      (arith, put-IsDistinct bs b, contains-put bs b c.id, same_iff c.id b.id, same_iff b.id c.id)

pub fill-IsDistinct :
    (bs new : List Block)
    → IsDistinct (block_ids bs)
    → IsDistinct (block_ids (foldl put_block bs new))
fill-IsDistinct bs [] d = d
fill-IsDistinct bs (b ∷ new) d = fill-IsDistinct (put_block bs b) new (put-IsDistinct bs b d)

pub contains-fill :
    (bs new : List Block) (k : String)
    → contains (block_ids (foldl put_block bs new)) k
      ≡ (contains (block_ids bs) k || contains (block_ids new) k)
unfolding block_ids contains
contains-fill bs [] k = ground arith
contains-fill bs (b ∷ new) k =
    ground (arith, contains-fill (put_block bs b) new k, contains-put bs b k)

-- Some block of the list has the name and the successor.
sends : List Block → String → String → Bool
sends [] k s = false
sends (b ∷ bs) k s = if same b.id k && contains b.successors s then true else sends bs k s

contains-append_at :
    (m : Lists) (x id s k : String)
    → contains (append_at m x id s) k
      ≡ (if same x s then contains (m s) k || same id k else contains (m s) k)
unfolding append_at contains
contains-append_at m x id s k = ground (arith, contains-append (m s) (id ∷ []) k)

contains-add_preds :
    (bs : List Block) (id : String) (m : Lists) (ss : List String) (s k : String)
    → contains (add_preds bs id m ss s) k
      ≡ (contains (m s) k || (same id k && contains ss s && is_some (get_block bs s)))
unfolding add_preds contains
contains-add_preds bs id m [] s k = ground arith
contains-add_preds bs id m (x ∷ ss) s k = elim (Bool-cases (is_some (get_block bs x))) [
  | inl known ↦
      rw (known, contains-add_preds bs id (append_at m x id) ss s k)
        (ground (arith, contains-append_at m x id s k, same_iff x s, known))
  | inr unknown ↦
      rw (unknown, contains-add_preds bs id m ss s k) (ground (arith, same_iff x s, unknown))
]

contains-all_preds :
    (bs : List Block) (m : Lists) (rest : List Block) (s k : String)
    → contains (all_preds bs m rest s) k
      ≡ (contains (m s) k || (is_some (get_block bs s) && sends rest k s))
unfolding all_preds sends
contains-all_preds bs m [] s k = ground arith
contains-all_preds bs m (b ∷ rest) s k =
    rw (contains-all_preds bs (add_preds bs b.id m b.successors) rest s k)
      (ground (arith, contains-add_preds bs b.id m b.successors s k))

sends-perm_step : {xs ys : List Block} → Permᴰ xs ys → (k s : String) → sends xs k s ≡ sends ys k s
unfolding sends
sends-perm_step Permᴰ.nil k s = refl
sends-perm_step (Permᴰ.cons e p) k s = ground (arith, sends-perm_step p k s)
sends-perm_step (Permᴰ.swap e f) k s = ground arith
sends-perm_step (Permᴰ.trans p q) k s = sends-perm_step p k s ∙ sends-perm_step q k s

sends-perm : {xs ys : List Block} → Perm xs ys → (k s : String) → sends xs k s ≡ sends ys k s
sends-perm p k s = ∥∥₁_elim p (Bool-set _ _) (λ q. sends-perm_step q k s)

sends-absent :
    (bs : List Block) (k s : String) → contains (block_ids bs) k ≡ false → sends bs k s ≡ false
unfolding sends block_ids contains
sends-absent [] k s n = refl
sends-absent (b ∷ bs) k s n = ground (arith, sends-absent bs k s)

sends-eq-successors :
    (bs : List Block) (k s : String)
    → IsDistinct (block_ids bs)
    → sends bs k s ≡ contains (successors bs k) s
unfolding sends successors get_block block_ids contains
sends-eq-successors [] k s d = refl
sends-eq-successors (b ∷ bs) k s d =
    ground (arith, same_iff b.id k, sends-absent bs k s, sends-eq-successors bs k s d.1)

-- The map of blocks may be visited in any order.
abbrev pub IsVisit : (List Block → List Block) → Type 0
IsVisit visit = (bs : List Block) → Perm (visit bs) bs

-- What every graph that is built satisfies.
pub record IsGraph (g : Graph) : Type 0 where
  pub distinct : IsDistinct (block_ids g.blocks)
  pub listed : (k : String) → contains g.order k ≡ contains (block_ids g.blocks) k
  pub turned :
      (s k : String)
      → contains (g.preds s) k
        ≡ (is_some (get_block g.blocks s) && contains (successors g.blocks k) s)
  pub computed : g.post_doms ≡ or_nothing (compute_post_dominators g.blocks g.order)

pub graph_of-IsGraph :
    (visit : List Block → List Block) (fn : Function) → IsVisit visit → IsGraph (graph_of visit fn)
unfolding graph_of block_ids contains
graph_of-IsGraph visit fn v = record {
  distinct = distinct;
  listed = λ k. sym (contains-fill [] fn.blocks k);
  turned = λ s k.
      contains-all_preds blocks (λ k. []) (visit blocks) s k
      ∙ ap (λ b. is_some (get_block blocks s) && b)
          (sends-perm (v blocks) k s ∙ sends-eq-successors blocks k s distinct);
  computed = refl;
}
  where
    blocks : List Block
    blocks = foldl put_block [] fn.blocks

    distinct : IsDistinct (block_ids blocks)
    distinct = fill-IsDistinct [] fn.blocks tt

pub build-eq-some :
    (visit : List Block → List Block) (fn : Function) (g : Graph)
    → build visit fn ≡ some g
    → graph_of visit fn ≡ g
unfolding build
build-eq-some visit fn g h =
    elim (Bool-cases (nat_eq (length fn.blocks) 0 || same fn.entry_block "")) [
      | inl empty ↦ let e : none ≡ some g = rw (empty, build) at h in cc
      | inr full ↦ let e : some (graph_of visit fn) ≡ some g = rw (full, build) at h in cc
    ]

-- A graph that `Build` returns has distinct block names, lists exactly its blocks in its order, and
-- has `k` among the predecessors of `s` exactly if `s` is a block and a successor of `k`.
pub build-IsGraph :
    (visit : List Block → List Block) (fn : Function) (g : Graph)
    → IsVisit visit
    → build visit fn ≡ some g
    → IsGraph g
build-IsGraph visit fn g v h =
    subst IsGraph (build-eq-some visit fn g h) (graph_of-IsGraph visit fn v)
