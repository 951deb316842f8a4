-- ===== src/Ir.antt =====
-- core/internal/ir/ir.go: the program as a frontend lowers it, in the parts that the control-flow
-- graph, the reaching definitions and the call graph read. Identifiers are texts, and the empty
-- text is an absent one, as in the source.
pub mod Binding
use sast_engine.Prelude.{ℕ, ℤ, String, Bool, Option, List}

pub record Loc : Type 0 where
  pub file : String
  pub line : ℕ
  pub column : ℕ

pub record Block : Type 0 where
  pub id : String
  pub successors : List String
  pub terminator : String
  pub loc : Loc
  pub loop_header : Bool
  pub loop_bound : String

pub record Param : Type 0 where
  pub index : ℕ
  pub name : String
  pub value_id : String
  pub destructured : Bool
  pub path : String

pub record Entry : Type 0 where
  pub key : String
  pub value_id : String

-- `kind` is an open text in the source too.
pub record Value : Type 0 where
  pub id : String
  pub kind : String
  pub name : String
  pub loc : Loc
  pub base : String
  pub path : String
  pub literal : String
  pub entries : List Entry

pub record Flow : Type 0 where
  pub from : String
  pub to : String
  pub kind : String
  pub loc : Loc
  pub block : String

pub record Callee : Type 0 where
  pub kind : String
  pub function_id : String
  pub possible_function_ids : List String
  pub symbol : String
  pub resolution : String
  pub name : String

-- `param_index` is a pointer in the source; `none` is nil.
pub record Arg : Type 0 where
  pub index : ℕ
  pub name : String
  pub value_id : String
  pub function_id : String
  pub value_type : String
  pub value_type_origin : String
  pub param_index : Option ℕ

-- The call sites. `arg_literals` is a map from positions; a keyword has a negative one.
pub record Call : Type 0 where
  pub id : String
  pub loc : Loc
  pub callee : Callee
  pub args : List Arg
  pub method : String
  pub receiver_id : String
  pub result_id : String
  pub block : String
  pub condition_branch : String
  pub receiver_type : String
  pub receiver_type_origin : String
  pub arg_literals : List (ℤ × String)
  pub enumerated_options : List ℤ

pub record Write : Type 0 where
  pub base : String
  pub path : String
  pub from : String

-- The functions, without comparisons.
pub record Function : Type 0 where
  pub id : String
  pub name : String
  pub owner_module : String
  pub loc : Loc
  pub params : List Param
  pub values : List Value
  pub flows : List Flow
  pub calls : List Call
  pub returns : List String
  pub writes : List Write
  pub entry_block : String
  pub blocks : List Block
