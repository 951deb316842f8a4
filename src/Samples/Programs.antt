-- ===== src/Samples/Programs.antt =====
-- Small functions, as a frontend lowers them.
use sast_engine.Prelude.{ℕ, String, true, false, List, [], ◌∷◌}
use sast_engine.Ir.{Loc, Block, Value, Flow, Function}

abbrev pub nowhere : Loc
nowhere = record { file = "app.ts"; line = 1; column = 1 }

abbrev pub plain : String → List String → Block
plain id succs = record {
  id = id;
  successors = succs;
  terminator = "";
  loc = nowhere;
  loop_header = false;
  loop_bound = "";
}

abbrev pub function_of : List Block → Function
function_of bs = record {
  id = "f";
  name = "handler";
  owner_module = "app.ts";
  loc = nowhere;
  params = [];
  values = [];
  flows = [];
  calls = [];
  returns = [];
  writes = [];
  entry_block = "test";
  blocks = bs;
}

-- `if (owner !== caller) { res.status(403); return; } use();`
abbrev pub enforced : Function
enforced = function_of (plain "test" ("deny" ∷ "use" ∷ []) ∷ plain "deny" [] ∷ plain "use" [] ∷ [])

-- `if (owner !== caller) { log("mismatch"); } use();`
abbrev pub decorated : Function
decorated =
    function_of (plain "test" ("log" ∷ "use" ∷ []) ∷ plain "log" ("use" ∷ []) ∷ plain "use" [] ∷ [])

-- `while (more()) { step(); } use();`, with a block after a `return` that nothing leads to
abbrev pub looping : Function
looping = function_of (
    plain "test" ("head" ∷ [])
    ∷ record {
      id = "head";
      successors = "body" ∷ "use" ∷ [];
      terminator = "branch";
      loc = nowhere;
      loop_header = true;
      loop_bound = "more";
    }
    ∷ plain "body" ("head" ∷ [])
    ∷ plain "dead" ("use" ∷ [])
    ∷ plain "use" []
    ∷ [])

abbrev pub local : String → Value
local id = record {
  id = id;
  kind = "local";
  name = id;
  loc = nowhere;
  base = "";
  path = "";
  literal = "";
  entries = [];
}

abbrev pub edge_at : String → String → ℕ → String → Flow
edge_at from to line block = record {
  from = from;
  to = to;
  kind = "assign";
  loc = record { file = "app.ts"; line = line; column = 1 };
  block = block;
}

-- `let event = req.body; event = construct(body); type = event.type;`, the second assignment in a
-- block of its own on the only way to the use
abbrev pub webhook : Function
webhook = record {
  id = "webhook";
  name = "webhook";
  owner_module = "app.ts";
  loc = nowhere;
  params = [];
  values = local "event" ∷ [];
  flows =
      edge_at "body" "event" 46 "start"
      ∷ edge_at "verified" "event" 56 "check"
      ∷ edge_at "event" "type" 62 "use"
      ∷ [];
  calls = [];
  returns = [];
  writes = [];
  entry_block = "start";
  blocks = plain "start" ("check" ∷ []) ∷ plain "check" ("use" ∷ []) ∷ plain "use" [] ∷ [];
}
