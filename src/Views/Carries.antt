-- ===== src/Views/Carries.antt =====
-- core/internal/flow/context.go: every name that a mapping is found to carry is one that the program
-- gives it by a literal key or a keyword, and the last write under a key decides.
use sast_engine.Prelude.{String, ◌≡◌, some, List, Memᴰ}
use sast_engine.Ir.{Function, Flow, Call, Arg, Entry, Value, Write}
use sast_engine.CallGraph.{func_by_id}
use sast_engine.Taint.Index.{value_by_id, owner_of_value}
use sast_engine.Views.{Names}
use sast_engine.Views.Mapping.{callee_name, callee_functions}

-- The program gives the mapping a value under a name.
pub data Carries (fns : List Function) : String → String → String → Type 0 where
  entry :
      (id : String) (v : Value) (x : Entry)
      → value_by_id fns id ≡ some v
      → Memᴰ x v.entries
      → Carries fns id x.key x.value_id
  flowed :
      (id k v : String) (fn : Function) (f : Flow)
      → owner_of_value fns id ≡ some fn
      → Memᴰ f fn.flows
      → f.to ≡ id
      → Carries fns f.from k v
      → Carries fns id k v
  keyword :
      (id : String) (fn : Function) (c : Call) (a : Arg)
      → owner_of_value fns id ≡ some fn
      → Memᴰ c fn.calls
      → c.result_id ≡ id
      → callee_name c ≡ "dict"
      → Memᴰ a c.args
      → Carries fns id a.name a.value_id
  returned :
      (id k v : String) (fn : Function) (c : Call) (name : String) (callee : Function)
      (ret : String)
      → owner_of_value fns id ≡ some fn
      → Memᴰ c fn.calls
      → c.result_id ≡ id
      → Memᴰ name (callee_functions c.callee)
      → func_by_id fns name ≡ some callee
      → Memᴰ ret callee.returns
      → Carries fns ret k v
      → Carries fns id k v
  updated :
      (id k v : String) (fn : Function) (c : Call) (a : Arg)
      → owner_of_value fns id ≡ some fn
      → Memᴰ c fn.calls
      → c.receiver_id ≡ id
      → c.method ≡ "update"
      → Memᴰ a c.args
      → Carries fns a.value_id k v
      → Carries fns id k v
  written :
      (id : String) (fn : Function) (w : Write)
      → owner_of_value fns id ≡ some fn
      → Memᴰ w fn.writes
      → w.base ≡ id
      → Carries fns id w.path w.from

-- Each name of a mapping is given by the program to the value.
abbrev pub IsGiven : List Function → String → Names → Type 0
IsGiven fns id out = (k v : String) → out k ≡ some v → Carries fns id k v
