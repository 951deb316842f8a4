-- ===== src/Reachdef.antt =====
-- core/internal/reachdef/reachdef.go: definitions of one variable are told apart. This file has the
-- definitions and the uses of a value, and which definitions reach a use.
pub mod Kill
pub mod Split
pub mod Feeds
pub mod Versions
pub mod Rewritten
pub mod Recorded
use sast_engine.Prelude.{
  ℕ, zero, suc, ◌+◌, String, Bool, true, false, not, ◌&&◌, ◌||◌, Option, none, some, List, [], ◌∷◌,
  ◌++◌, map, same, if◌then◌else◌, ltb, leb, nat_eq, length,
}
use sast_engine.Ir.{Loc, Param, Value, Flow, Arg, Call, Function}
use sast_engine.Cfg.{Graph}
use sast_engine.Cfg.Queries.{reaches}
use sast_engine.Cfg.Dominance.{dominates, reachable}

-- `defSite`: the function, and the edge that its index names
pub record DefSite : Type 0 where
  pub fn : Function
  pub flow : Flow

-- the sites that one function adds to `defsOf[id]`
unfoldable pub sites_in : String → Function → List Flow → List DefSite
sites_in id fn [] = []
sites_in id fn (f ∷ fs) =
    let rest = sites_in id fn fs in
    if same f.from "" || same f.to ""
    then rest
    else if same f.to id
    then record { fn = fn; flow = f } ∷ rest
    else rest

-- `defsOf[id]`, over the whole program
unfoldable pub defs_of : List Function → String → List DefSite
defs_of [] id = []
defs_of (fn ∷ fns) id = sites_in id fn fn.flows ++ defs_of fns id

-- What a use rewires: the source of a flow, the receiver of a call, or an argument of a call.
pub data Place : Type 0 where
  flow : ℕ → Place
  receiver : ℕ → Place
  arg : ℕ → ℕ → Place

pub record Use : Type 0 where
  pub block : String
  pub loc : Loc
  pub place : Place

unfoldable pub is_param : List Param → String → Bool
is_param [] id = false
is_param (p ∷ ps) id = if same p.value_id id then true else is_param ps id

-- the loop of definitionsOf
unfoldable pub checked_sites : Function → Graph → List DefSite → Option (List Flow)
checked_sites fn g [] = some []
checked_sites fn g (site ∷ sites) =
    let rest = checked_sites fn g sites in
    if not (same site.fn.id fn.id)
    then none
    else if same site.flow.kind "append" || same site.flow.kind "extend"
    then none
    else if same site.flow.block "" || not (reachable g site.flow.block)
    then none
    else elim rest [ none ↦ none | some defs ↦ some (site.flow ∷ defs) ]

-- `definitionsOf`; `none` is the answer false
unfoldable pub definitions_of : List Function → Function → Graph → Value → Option (List Flow)
definitions_of program fn g v =
    if not (same v.kind "local") || not (same v.base "") || not (same v.path "")
    then none
    else if is_param fn.params v.id
    then none
    else if ltb (length (defs_of program v.id)) 2
    then none
    else checked_sites fn g (defs_of program v.id)

-- the reads by flows, from the flow numbered `i` on
unfoldable pub flow_uses : String → ℕ → List Flow → List Use
flow_uses id i [] = []
flow_uses id i (f ∷ fs) =
    let rest = flow_uses id (i + 1) fs in
    if not (same f.from id) || same f.block ""
    then rest
    else record { block = f.block; loc = f.loc; place = flow i } ∷ rest

unfoldable pub arg_uses : String → Call → ℕ → ℕ → List Arg → List Use
arg_uses id c i j [] = []
arg_uses id c i j (a ∷ as') =
    let rest = arg_uses id c i (j + 1) as' in
    if same a.value_id id
    then record { block = c.block; loc = c.loc; place = arg i j } ∷ rest
    else rest

unfoldable pub call_uses : String → ℕ → List Call → List Use
call_uses id i [] = []
call_uses id i (c ∷ cs) =
    let rest = call_uses id (i + 1) cs in
    let args = arg_uses id c i 0 c.args in
    if same c.block ""
    then rest
    else if same c.receiver_id id
    then record { block = c.block; loc = c.loc; place = receiver i } ∷ args ++ rest
    else args ++ rest

-- `usesOf`
unfoldable pub uses_of : Function → String → List Use
uses_of fn id = flow_uses id 0 fn.flows ++ call_uses id 0 fn.calls

unfoldable pub dominates_use : Graph → Flow → Use → Bool
dominates_use g def u =
    if same def.block u.block
    then if reaches g def.block def.block then false else ltb def.loc.line u.loc.line
    else dominates g def.block u.block

unfoldable pub can_reach : Graph → Flow → Flow → Bool
can_reach g from to =
    if same from.block to.block
    then reaches g from.block from.block || leb from.loc.line to.loc.line
    else reaches g from.block to.block

-- The definition `def` is killed for the use by another, `other`.
unfoldable pub kills : Graph → Use → Flow → Flow → Bool
kills g u def other = dominates_use g other u && not (can_reach g other def)

-- the loop of `reaches` over the definitions, from the one numbered `j` on
unfoldable pub survives : Graph → Use → ℕ → Flow → ℕ → List Flow → Bool
survives g u i def j [] = true
survives g u i def j (other ∷ defs) =
    let rest = survives g u i def (j + 1) defs in
    if nat_eq j i then rest else if kills g u def other then false else rest

-- the numbers of the definitions that reach the use, counted from `i` on
unfoldable pub reaching_from : Graph → List Flow → Use → ℕ → List Flow → List ℕ
reaching_from g defs u i [] = []
reaching_from g defs u i (def ∷ rest) =
    let later = reaching_from g defs u (i + 1) rest in
    if survives g u i def 0 defs then i ∷ later else later

unfoldable pub reaching : Graph → List Flow → Use → List ℕ
reaching g defs u = reaching_from g defs u 0 defs
