-- ===== src/Views.antt =====
-- core/internal/ir/ir.go: the views of a program and the renders that hand a context to one. A map from
-- names to values is a function, where only its keys are asked for, and a list of pairs where the code
-- goes through it.
pub mod Mapping
pub mod Carries
pub mod Given
pub mod Latest
pub mod Reach
pub mod Endless
pub mod Resolve
pub mod Join
pub mod Joined
pub mod Counted
use sast_engine.Prelude.{ℕ, String, Bool, Option, none, some, List, [], ◌∷◌, same, if◌then◌else◌}
use sast_engine.Ir.{Loc}

-- names and the values behind them
abbrev pub Names : Type 0
Names = String → Option String

abbrev pub Rebind : Type 0
Rebind = List (String × String)

pub record Include : Type 0 where
  pub view : String
  pub rebind : Rebind

-- `removed_at` is a pointer in the source; `none` is nil.
pub record ViewRead : Type 0 where
  pub path : String
  pub escaped : Bool
  pub context : String
  pub removed_at : Option Loc
  pub loc : Loc

pub record View : Type 0 where
  pub id : String
  pub extends : List String
  pub includes : List Include
  pub reads : List ViewRead

pub record Binding : Type 0 where
  pub name : String
  pub value_id : String

pub record Render : Type 0 where
  pub view : String
  pub name : String
  pub from_param : String
  pub forwards_keywords : Bool
  pub context_values : List String
  pub function_id : String
  pub loc : Loc
  pub block : String
  pub bindings : List Binding

unfoldable pub no_names : Names
no_names k = none

-- `out[name] = value`
unfoldable pub bind : String → String → Names → Names
bind name value names k = if same name k then some value else names k

unfoldable pub merge : Names → Names → Names
merge into from k = elim (from k) [ some v ↦ some v | none ↦ into k ]
