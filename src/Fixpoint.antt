-- ===== src/Fixpoint.antt =====
-- The iterative dataflow that core/internal/cfg/cfg.go writes out twice, in computePostDominators
-- and in computeDominators: sets of block names that only shrink, swept until nothing changes.
pub mod Transfer
pub mod Invariant
pub mod Solve
pub mod Walks
pub mod Exact
use sast_engine.Prelude.{
  ℕ, zero, suc, String, ◌≡◌, Bool, true, false, Option, none, some, List, [], ◌∷◌, StrSet, insert,
  contains, keep, same, same_set, if◌then◌else◌,
}

-- `map[string]map[string]bool`
abbrev pub SetMap : Type 0
SetMap = String → Option StrSet

unfoldable pub update : SetMap → String → StrSet → SetMap
update d k v j = if same k j then some v else d j

-- `d[k]`, which is the empty map where the key is missing
unfoldable pub get : SetMap → String → StrSet
get d k = elim (d k) [ none ↦ [] | some s ↦ s ]

-- What the two loops differ in: the order of a sweep, the blocks that a sweep passes over, the
-- blocks whose sets are intersected, and which of those count.
pub record Problem : Type 0 where
  pub order : List String
  pub skip : String → Bool
  pub inputs : String → List String
  pub admit : SetMap → String → Bool

-- One input: the first set is copied, and from then on the keys that a set lacks are deleted.
unfoldable pub narrow : Option StrSet → StrSet → StrSet
narrow none set = set
narrow (some next) set = keep (contains set) next

unfoldable pub or_empty : Option StrSet → StrSet
or_empty none = []
or_empty (some s) = s

module _ (p : Problem) where
  -- the loop over the inputs of one block
  unfoldable pub meet : SetMap → List String → Option StrSet → Option StrSet
  meet d [] next = next
  meet d (k ∷ ks) next = meet d ks (if p.admit d k then some (narrow next (get d k)) else next)

  unfoldable pub transfer : SetMap → String → StrSet
  transfer d k = insert k (or_empty (meet d (p.inputs k) none))

  -- the body of the sweep, with the flag `changed`
  unfoldable pub visit : SetMap → Bool → String → SetMap × Bool
  visit d changed k =
      if p.skip k
      then (d, changed)
      else if same_set (transfer d k) (get d k)
      then (d, changed)
      else (update d k (transfer d k), true)

  unfoldable pub sweep : List String → SetMap → Bool → SetMap × Bool
  sweep [] d changed = (d, changed)
  sweep (k ∷ ks) d changed = let (d', changed') = visit d changed k in sweep ks d' changed'

  -- `for changed := true; changed;`, on fuel; `none` means that the fuel ran out
  unfoldable pub solve : ℕ → SetMap → Option SetMap
  solve zero d = none
  solve (suc fuel) d =
      let (d', changed) = sweep p.order d false in
      elim changed [ true ↦ solve fuel d' | false ↦ some d' ]
