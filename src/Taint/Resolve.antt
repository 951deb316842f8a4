-- ===== src/Taint/Resolve.antt =====
-- core/internal/taint/taint.go: the calls that complete a promise (resolveTargets, bindResolver).
use sast_engine.Prelude.{
  ℕ, zero, suc, String, Bool, true, false, not, ◌&&◌, ◌||◌, Option, none, some, List, [], ◌∷◌, ◌++◌,
  StrSet, contains, insert, same, ltb, leb, length, if◌then◌else◌, each,
}
use sast_engine.Ir.{Function, Call, Arg, Param}
use sast_engine.CallGraph.{func_by_id}
use sast_engine.Taint.{ResolveTarget, Engine, put}
use sast_engine.Taint.Rules.{Model, CallbackRule, resolver_for}
use sast_engine.Taint.Index.{param_at, arg_at}

abbrev pub closure_depth : ℕ
closure_depth = 6

abbrev pub closure_limit : ℕ
closure_limit = 64

-- the map `out`, which answers the empty list for an absent key
abbrev pub Targets : Type 0
Targets = String → List ResolveTarget

-- an element of the queue
pub record Frame : Type 0 where
  pub fn : Function
  pub depth : ℕ

-- what the search from one executor changes
pub record Closure : Type 0 where
  pub seen : StrSet
  pub queue : List Frame
  pub out : Targets

-- a parameter of that name
unfoldable pub binds_name : List Param → String → Bool
binds_name [] name = false
binds_name (p ∷ ps) name = same p.name name || binds_name ps name

-- what `reach` asks of a function before it is searched
unfoldable pub is_within : Function → String → Function → Bool
is_within exec name f =
    if not (same f.owner_module exec.owner_module)
    then false
    else if ltb f.loc.line exec.loc.line
    then false
    else not (binds_name f.params name)

unfoldable pub is_continuation : String → Call → Bool
is_continuation name c = same c.callee.kind "unresolved" && same c.callee.name name

module _ (fns : List Function) (exec : Function) (name : String) where
  -- `reach`
  unfoldable pub reach_function : ℕ → String → Closure → Closure
  reach_function depth id s = elim (same id "" || contains s.seen id) [
    | true ↦ s
    | false ↦ elim (func_by_id fns id) [
      | none ↦ s
      | some f ↦
          if is_within exec name f
          then record s {
            seen = insert id s.seen;
            queue = s.queue ++ record { fn = f; depth = suc depth } ∷ [];
          }
          else s
    ]
  ]

  -- a call of the continuation
  unfoldable pub completed : ResolveTarget → Call → Closure → Closure
  completed t c s =
      if is_continuation name c then record s { out = put c.id (s.out c.id ++ t ∷ []) s.out } else s

  -- the functions that a call hands over, and the local one that it calls
  unfoldable pub reach_call : ℕ → Call → Closure → Closure
  reach_call depth c s =
      let passed = each (λ (a : Arg). reach_function depth a.function_id) c.args s in
      if same c.callee.kind "local"
      then reach_function depth c.callee.function_id passed
      else passed

  -- the body of the loop over the calls of a function
  unfoldable pub bind_call : ResolveTarget → ℕ → Call → Closure → Closure
  bind_call t depth c s =
      let s' = completed t c s in
      if leb closure_depth depth || leb closure_limit (length s'.seen)
      then s'
      else reach_call depth c s'

  -- the loop over the queue
  unfoldable pub bind_within : ResolveTarget → ℕ → Closure → Option Targets
  bind_within t zero s = elim s.queue [ [] ↦ some s.out | _ ∷ _ ↦ none ]
  bind_within t (suc fuel) s = elim s.queue [
    | [] ↦ some s.out
    | cur ∷ rest ↦
        bind_within t fuel (each (bind_call t cur.depth) cur.fn.calls record s { queue = rest })
  ]

  unfoldable pub first_frame : Targets → Closure
  first_frame out = record {
    seen = insert exec.id [];
    queue = record { fn = exec; depth = 0 } ∷ [];
    out = out;
  }

  -- `bindResolver`: a function is put on the queue once, so one round for each is enough
  unfoldable pub bind_resolver : ResolveTarget → Targets → Targets
  bind_resolver t out = elim (bind_within t (suc (length fns)) (first_frame out)) [
    | none ↦ out
    | some out' ↦ out'
  ]

-- the target of a call of the continuation that a rule names
unfoldable pub target_of : Call → CallbackRule → ResolveTarget
target_of c rule = record {
  result_id = c.result_id;
  arg_index = rule.resolver_arg;
  note = rule.note;
  resolution = c.callee.resolution;
}

-- the executor of a call, which is the function handed over at `callback_arg`
unfoldable pub executor_of : List Function → Call → CallbackRule → Option Function
executor_of fns c rule = elim (arg_at c.args rule.callback_arg) [
  | none ↦ none
  | some arg ↦ if same arg.function_id "" then none else func_by_id fns arg.function_id
]

-- the name of the continuation in the executor
unfoldable pub continuation_of : Function → CallbackRule → Option String
continuation_of exec rule = elim rule.resolver_param [
  | none ↦ none
  | some index ↦ elim (param_at exec.params index) [
    | none ↦ none
    | some p ↦ if same p.name "" then none else some p.name
  ]
]

-- the body of the loop over the calls of the program
unfoldable pub resolve_call : List Function → List CallbackRule → Call → Targets → Targets
resolve_call fns rules c out = elim (resolver_for rules c.callee.symbol c.method) [
  | none ↦ out
  | some rule ↦ elim (same c.result_id "") [
    | true ↦ out
    | false ↦ elim (executor_of fns c rule) [
      | none ↦ out
      | some exec ↦ elim (continuation_of exec rule) [
        | none ↦ out
        | some name ↦ bind_resolver fns exec name (target_of c rule) out
      ]
    ]
  ]
]

-- `resolveTargets`
unfoldable pub resolve_targets : List Function → Model → Targets
resolve_targets fns m =
    each (λ (fn : Function). each (resolve_call fns m.callbacks) fn.calls) fns (λ id. [])

-- the engine of a program and a model
unfoldable pub engine_of : List Function → Model → Engine
engine_of fns m = record { functions = fns; model = m; resolves = resolve_targets fns m }
