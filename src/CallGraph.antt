-- ===== src/CallGraph.antt =====
-- core/internal/ir/ir.go: the functions that roots can reach (ReachableFrom), through local calls and
-- through functions that are handed over as arguments.
pub mod Lookup
pub mod Marks
pub mod Reachable
use sast_engine.Prelude.{
  ℕ, zero, suc, ◌+◌, String, Bool, true, false, not, ◌&&◌, ◌||◌, Option, none, some, List, [], ◌∷◌,
  ◌++◌, StrSet, insert, contains, same, if◌then◌else◌, length, ◌≡◌,
}
use sast_engine.Ir.{Function, Call, Arg}

-- `ix.FuncByID[id]`, which NewIndex fills in order: of two functions with one name the later is kept.
unfoldable pub func_by_id : List Function → String → Option Function
func_by_id [] id = none
func_by_id (fn ∷ fns) id = elim (func_by_id fns id) [
  | some later ↦ some later
  | none ↦ if same fn.id id then some fn else none
]

-- the local callees of a function, in order
unfoldable pub called : List Call → List String
called [] = []
called (c ∷ cs) =
    let rest = called cs in
    if not (same c.callee.kind "local") || same c.callee.function_id ""
    then rest
    else c.callee.function_id ∷ rest

unfoldable pub passed_in : List Arg → List String
passed_in [] = []
passed_in (a ∷ args) =
    let rest = passed_in args in if same a.function_id "" then rest else a.function_id ∷ rest

-- the functions that are passed as arguments, in order
unfoldable pub passed : List Call → List String
passed [] = []
passed (c ∷ cs) = passed_in c.args ++ passed cs

-- `seen` and `queue`
abbrev pub Search : Type 0
Search = StrSet × List String

-- A name that is not yet seen is marked and put on the queue.
unfoldable pub mark : String → Search → Search
mark id (seen, queue) =
    if contains seen id then (seen, queue) else (insert id seen, queue ++ id ∷ [])

unfoldable pub mark_all : List String → Search → Search
mark_all [] s = s
mark_all (id ∷ ids) s = mark_all ids (mark id s)

-- the body of the loop, for a name that is taken off the queue
unfoldable pub expand : List Function → String → Search → Search
expand fns id s = elim (func_by_id fns id) [
  | none ↦ s
  | some fn ↦ mark_all (passed fn.calls) (mark_all (called fn.calls) s)
]

-- the loop, on fuel
unfoldable pub search_from : List Function → ℕ → StrSet → List String → Option StrSet
search_from fns fuel seen [] = some seen
search_from fns zero seen (id ∷ queue) = none
search_from fns (suc fuel) seen (id ∷ queue) =
    let (seen', queue') = expand fns id (seen, queue) in search_from fns fuel seen' queue'

-- all the names that can be put on the queue
unfoldable pub all_targets : List Function → List String
all_targets [] = []
all_targets (fn ∷ fns) = called fn.calls ++ (passed fn.calls ++ all_targets fns)

unfoldable pub or_nothing_seen : Option StrSet → StrSet
or_nothing_seen none = []
or_nothing_seen (some seen) = seen

-- `ReachableFrom`
unfoldable pub reachable_from : List Function → List String → StrSet
reachable_from fns roots =
    let (seen, queue) = mark_all roots ([], []) in
    or_nothing_seen (search_from fns (length roots + length (all_targets fns)) seen queue)

-- One function hands control to another: it calls it, or passes it on.
abbrev pub Hands : List Function → String → String → Type 0
Hands fns j k =
    (fn : Function) × (func_by_id fns j ≡ some fn)
    × ((contains (called fn.calls) k || contains (passed fn.calls) k) ≡ true)

-- what the roots can reach
pub data Reached (fns : List Function) (roots : List String) : String → Type 0 where
  root : (k : String) → contains roots k ≡ true → Reached fns roots k
  hand : (j k : String) → Reached fns roots j → Hands fns j k → Reached fns roots k
