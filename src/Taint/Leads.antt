-- ===== src/Taint/Leads.antt =====
-- core/internal/taint/taint.go: the hops that a program has, apart from when they are taken, and the
-- values that a hop can reach.
use sast_engine.Prelude.{String, ◌≡◌, true, false, none, some, List, [], contains, Memᴰ, same}
use sast_engine.Ir.{Function, Flow, Call, Arg, Param}
use sast_engine.Ir.Binding.{bound_params, binds}
use sast_engine.CallGraph.{func_by_id}
use sast_engine.Taint.{Engine, ResolveTarget}
use sast_engine.Taint.Rules.{store_read_at}
use sast_engine.Taint.Index.{
  flows_from, owner_of_value, call_sites_of, returns_of, arg_uses, receiver_uses, DestructuredUse,
  entry_uses,
}
use sast_engine.Taint.Propagate.{callback_target}

mutual
  -- One value hands the classification to another.
  pub data Leads (e : Engine) : String → String → Type 0 where
    -- a flow of the value
    flow : (x : String) (f : Flow) → Memᴰ f (flows_from e.functions x) → Leads e x f.to
    -- an argument, to a parameter that it binds
    argument :
        (x : String) (c : Call) (a : Arg) (callee : Function) (p : Param)
        → Memᴰ c (arg_uses e.functions x)
        → Memᴰ a c.args
        → a.value_id ≡ x
        → c.callee.kind ≡ "local"
        → func_by_id e.functions c.callee.function_id ≡ some callee
        → Memᴰ p (bound_params a callee.params)
        → Leads e x p.value_id
    -- a property of an argument, to a parameter that binds a property of it
    property :
        (x : String) (u : DestructuredUse) (callee : Function) (p : Param)
        → Memᴰ u (entry_uses e.functions x)
        → func_by_id e.functions u.call.callee.function_id ≡ some callee
        → Memᴰ p (bound_params u.arg callee.params)
        → p.destructured ≡ true
        → same p.path "" ≡ false
        → Leads e x p.value_id
    -- the argument at the position that a call of a continuation resolves with, to the promise that the
    -- call completes, if the call is not local
    resolved :
        (x : String) (c : Call) (a : Arg) (t : ResolveTarget)
        → Memᴰ c (arg_uses e.functions x)
        → Memᴰ a c.args
        → a.value_id ≡ x
        → same c.callee.kind "local" ≡ false
        → Memᴰ t (e.resolves c.id)
        → a.index ≡ t.arg_index
        → Leads e x t.result_id
    -- an argument, to the result of a call that is not local, completes no promise and reads no store
    through :
        (x : String) (c : Call)
        → Memᴰ c (arg_uses e.functions x)
        → same c.callee.kind "local" ≡ false
        → e.resolves c.id ≡ []
        → same c.result_id "" ≡ false
        → store_read_at e.model.persistence c.callee.symbol c.method c.receiver_type ≡ none
        → Leads e x c.result_id
    -- the object of a method, to the parameter of a callback that a rule for the method fills
    callback :
        (x : String) (c : Call) (p : Param) (note : String)
        → Memᴰ c (receiver_uses e.functions x)
        → callback_target e c ≡ some (p, note)
        → Leads e x p.value_id
    -- the object of a method that is not local, to the method's result
    received :
        (x : String) (c : Call)
        → Memᴰ c (receiver_uses e.functions x)
        → same c.callee.kind "local" ≡ false
        → same c.result_id "" ≡ false
        → Leads e x c.result_id
    -- a value that its function returns, to a call of that function
    returned :
        (x : String) (fn : Function) (site : Call)
        → owner_of_value e.functions x ≡ some fn
        → contains (returns_of e.functions fn.id) x ≡ true
        → Memᴰ site (call_sites_of e.functions fn.id)
        → same site.result_id "" ≡ false
        → Leads e x site.result_id
    -- an argument, to the result of a call that hands it to a parameter, where hops lead from the parameter
    -- to a value that the function returns
    answered :
        (x id : String) (fn : Function) (site : Call) (a : Arg) (p : Param)
        → owner_of_value e.functions id ≡ some fn
        → contains (returns_of e.functions fn.id) id ≡ true
        → Memᴰ site (call_sites_of e.functions fn.id)
        → same site.result_id "" ≡ false
        → Memᴰ a site.args
        → a.value_id ≡ x
        → Memᴰ p fn.params
        → binds a fn.params p.index ≡ true
        → LeadsOn e p.value_id id
        → Leads e x site.result_id

  -- Some hops, or none, lead from one value to another.
  pub data LeadsOn (e : Engine) : String → String → Type 0 where
    here : (x : String) → LeadsOn e x x
    on : (x y z : String) → LeadsOn e x y → Leads e y z → LeadsOn e x z

-- what hops lead to from some values
pub data Carried (e : Engine) (roots : List String) : String → Type 0 where
  root : (k : String) → contains roots k ≡ true → Carried e roots k
  hop : (j k : String) → Carried e roots j → Leads e j k → Carried e roots k
