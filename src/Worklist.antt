-- ===== src/Worklist.antt =====
-- The searches of core/internal/cfg/cfg.go: a queue or a stack of block names, and the set of those
-- already expanded. `next` is the list that an expanded block appends.

pub mod Ends
pub mod Search
pub mod Drain
use sast_engine.Prelude.{
  ℕ, zero, suc, String, ◌≡◌, Bool, true, false, Option, none, some, List, [], ◌∷◌, ◌++◌, StrSet,
  insert, contains, same,
}

-- `append`, where the last name is the first to be taken off again
unfoldable pub push_all : List String → List String → List String
push_all [] stack = stack
push_all (k ∷ ks) stack = push_all ks (k ∷ stack)

module _ (next : String → List String) where
  -- the search that ends when the queue is empty; `none` means that the fuel ran out
  unfoldable pub explore : ℕ → StrSet → List String → Option StrSet
  explore fuel seen [] = some seen
  explore zero seen (id ∷ queue) = none
  explore (suc fuel) seen (id ∷ queue) = elim (contains seen id) [
    | true ↦ explore fuel seen queue
    | false ↦ explore fuel (insert id seen) (queue ++ next id)
  ]

  -- the search that ends at its target
  unfoldable pub find : String → ℕ → StrSet → List String → Option Bool
  find to fuel seen [] = some false
  find to zero seen (id ∷ queue) = none
  find to (suc fuel) seen (id ∷ queue) = elim (same id to) [
    | true ↦ some true
    | false ↦ elim (contains seen id) [
      | true ↦ find to fuel seen queue
      | false ↦ find to fuel (insert id seen) (queue ++ next id)
    ]
  ]

  -- the search that takes the name put on last, and ends when there is none
  unfoldable pub drain : ℕ → StrSet → List String → Option StrSet
  drain fuel seen [] = some seen
  drain zero seen (id ∷ stack) = none
  drain (suc fuel) seen (id ∷ stack) = elim (contains seen id) [
    | true ↦ drain fuel seen stack
    | false ↦ drain fuel (insert id seen) (push_all (next id) stack)
  ]

  -- the blocks that can be reached from some roots
  pub data Reach (roots : List String) : String → Type 0 where
    root : (k : String) → contains roots k ≡ true → Reach roots k
    edge : (j k : String) → Reach roots j → contains (next j) k ≡ true → Reach roots k
