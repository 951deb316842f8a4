-- ===== src/Reachdef/Split.antt =====
-- core/internal/reachdef/reachdef.go: the rewriting. A use that only some of a value's definitions
-- reach is made to read a version of the value that is fed by those. Go's cache of graphs is left
-- out: it holds what `Build` returns for the function of each name.
use sast_engine.Prelude.{
  ℕ, zero, suc, ◌+◌, String, Bool, true, false, not, ◌&&◌, ◌||◌, Option, none, some, List, [], ◌∷◌,
  ◌++◌, same, if◌then◌else◌, ltb, nat_eq, length, get_elem?,
}
use Prim.Native.Nat.{◌/◌, ◌%◌}
use Prim.Native.String.{◌++◌ as join}
use mathlib.Core.List.{foldl}
use sast_engine.Ir.{Block, Value, Flow, Arg, Call, Function}
use sast_engine.Cfg.{Graph, build}
use sast_engine.Cfg.Dominance.{reachable}
use sast_engine.Reachdef.{Place, Use, definitions_of, uses_of, reaching}

-- `%d`, for a number below 10 ^ fuel
unfoldable pub digit : ℕ → String
digit n =
    if nat_eq n 0
    then "0"
    else if nat_eq n 1
    then "1"
    else if nat_eq n 2
    then "2"
    else if nat_eq n 3
    then "3"
    else if nat_eq n 4
    then "4"
    else if nat_eq n 5
    then "5"
    else if nat_eq n 6
    then "6"
    else if nat_eq n 7
    then "7"
    else if nat_eq n 8
    then "8"
    else "9"

unfoldable pub decimal : ℕ → ℕ → String
decimal zero n = digit (n % 10)
decimal (suc fuel) n =
    let front = decimal fuel (n / 10) in if ltb n 10 then digit n else join front (digit (n % 10))

-- `fmt.Sprintf("%s#rd%d", id, n)`
unfoldable pub version_name : String → ℕ → String
version_name id n = join id (join "#rd" (decimal n n))

-- the fields that a splitter accumulates, and `versionOf`, which all splitters share
pub record Rewrites : Type 0 where
  pub flow_from : ℕ → Option String
  pub call_arg : ℕ → ℕ → Option String
  pub receiver : ℕ → Option String
  pub added : List Flow
  pub new_vals : List Value
  pub version_of : String → Option String

unfoldable pub rewire : Rewrites → Place → String → Rewrites
rewire s (Place.flow i) to = record s {
  flow_from = λ k. if nat_eq k i then some to else s.flow_from k;
}
rewire s (Place.receiver i) to = record s {
  receiver = λ k. if nat_eq k i then some to else s.receiver k;
}
rewire s (Place.arg i j) to = record s {
  call_arg = λ k l. if nat_eq k i && nat_eq l j then some to else s.call_arg k l;
}

-- the edges that feed a version: the definitions of the given numbers, with a new target
unfoldable pub edges_to : String → List Flow → List ℕ → List Flow
edges_to id defs [] = []
edges_to id defs (i ∷ is) = elim (get_elem? defs i) [
  | none ↦ edges_to id defs is
  | some def ↦ record def { to = id } ∷ edges_to id defs is
]

unfoldable pub same_key : List ℕ → List ℕ → Bool
same_key [] [] = true
same_key (x ∷ xs) (y ∷ ys) = nat_eq x y && same_key xs ys
same_key _ _ = false

-- `versions`, whose key spells the list of numbers
abbrev pub Versions : Type 0
Versions = List (List ℕ × String)

unfoldable pub find_version : Versions → List ℕ → Option String
find_version [] key = none
find_version ((k, id) ∷ vs) key = if same_key k key then some id else find_version vs key

unfoldable pub new_version : Value → List Flow → List ℕ → String → Rewrites → Rewrites
new_version v defs key id s = record s {
  added = s.added ++ edges_to id defs key;
  new_vals = s.new_vals ++ record v { id = id } ∷ [];
  version_of = λ k. if same k id then some v.id else s.version_of k;
}

-- the body of the loop in splitValue
unfoldable pub split_use :
    Graph → Value → List Flow → Rewrites × Versions → Use → Rewrites × Versions
split_use g v defs (s, versions) u =
    let key = reaching g defs u in
    let id = version_name v.id (length s.new_vals) in
    if not (reachable g u.block)
    then (s, versions)
    else if nat_eq (length key) 0 || nat_eq (length key) (length defs)
    then (s, versions)
    else elim (find_version versions key) [
      | some old ↦ (rewire s u.place old, versions)
      | none ↦ (rewire (new_version v defs key id s) u.place id, (key, id) ∷ versions)
    ]

unfoldable pub split_value : Function → Graph → Value → List Flow → Rewrites → Rewrites
split_value fn g v defs s = (foldl (split_use g v defs) (s, []) (uses_of fn v.id)).0

unfoldable pub split_values : List Function → Function → Graph → List Value → Rewrites → Rewrites
split_values program fn g [] s = s
split_values program fn g (v ∷ vs) s =
    split_values program fn g vs
      (elim (definitions_of program fn g v) [ none ↦ s | some defs ↦ split_value fn g v defs s ])

unfoldable pub or_keep : Option String → String → String
or_keep none old = old
or_keep (some new) old = new

unfoldable pub rewritten_flows : Rewrites → ℕ → List Flow → List Flow
rewritten_flows s i [] = []
rewritten_flows s i (f ∷ fs) =
    record f { from = or_keep (s.flow_from i) f.from } ∷ rewritten_flows s (i + 1) fs

unfoldable pub rewritten_args : Rewrites → ℕ → ℕ → List Arg → List Arg
rewritten_args s i j [] = []
rewritten_args s i j (a ∷ as') =
    record a { value_id = or_keep (s.call_arg i j) a.value_id } ∷ rewritten_args s i (j + 1) as'

unfoldable pub rewritten_calls : Rewrites → ℕ → List Call → List Call
rewritten_calls s i [] = []
rewritten_calls s i (c ∷ cs) =
    record c {
      receiver_id = or_keep (s.receiver i) c.receiver_id;
      args = rewritten_args s i 0 c.args;
    }
    ∷ rewritten_calls s (i + 1) cs

-- `rewritten`; `none` is nil
unfoldable pub rewritten : Function → Rewrites → Option Function
rewritten fn s =
    if nat_eq (length s.new_vals) 0
    then none
    else some (record fn {
      values = fn.values ++ s.new_vals;
      flows = rewritten_flows s 0 fn.flows ++ s.added;
      calls = rewritten_calls s 0 fn.calls;
    })

-- a splitter before it runs
unfoldable pub fresh : (String → Option String) → Rewrites
fresh version_of = record {
  flow_from = λ i. none;
  call_arg = λ i j. none;
  receiver = λ i. none;
  added = [];
  new_vals = [];
  version_of = version_of;
}

-- `run`, with the map of versions that it leaves
unfoldable pub run :
    (List Block → List Block)
    → List Function
    → (String → Option String)
    → Function
    → Option Function × (String → Option String)
run visit program version_of fn = elim (build visit fn) [
  | none ↦ (none, version_of)
  | some g ↦
      let s = split_values program fn g fn.values (fresh version_of) in
      (rewritten fn s, s.version_of)
]

-- the loop over the functions: the changed ones by their names, and the map of versions
unfoldable pub run_all :
    (List Block → List Block)
    → List Function
    → (String → Option Function)
    → (String → Option String)
    → List Function
    → (String → Option Function) × (String → Option String)
run_all visit program changed version_of [] = (changed, version_of)
run_all visit program changed version_of (fn ∷ fns) =
    let (out, version_of') = run visit program version_of fn in
    run_all visit program
      (λ k. elim out [ none ↦ changed k | some new ↦ if same k fn.id then some new else changed k ])
      version_of' fns

unfoldable pub replaced : (String → Option Function) → List Function → List Function
replaced changed [] = []
replaced changed (fn ∷ fns) =
    elim (changed fn.id) [ none ↦ fn | some new ↦ new ] ∷ replaced changed fns

-- `Split`, on the functions of a program
unfoldable pub split :
    (List Block → List Block) → List Function → List Function × (String → Option String)
split visit program =
    let (changed, version_of) = run_all visit program (λ k. none) (λ k. none) program in
    (replaced changed program, version_of)
