-- ===== src/Lib.antt =====
-- The analysis core of the SAST engine (core/internal): what the engine may conclude from the
-- control flow of a lowered function, proved against paths of its graph.
--
-- A frontend lowers a code base into the program representation (core/internal/ir). If it has views,
-- the join (core/internal/flow) first writes a sink into each function that renders one, for every
-- value that the view puts on the page. From the basic blocks of a function the core builds a
-- control-flow graph (core/internal/cfg), and asks it which checks decide an operation. Reaching
-- definitions (core/internal/reachdef) use the graph to tell the assignments of one variable apart
-- before taint is propagated. The call graph of the representation says which functions an entry
-- point can reach. A pattern that a program checks its input with counts as a sanitizer if the model
-- (core/internal/model) can show from the pattern that no text it accepts contains a dangerous
-- fragment. From the sources of a classification the taint engine (core/internal/taint) carries it
-- along the flows, calls and returns of the program, and keeps for each value it reaches one path as
-- the evidence. What is then reported depends on the declarations of the repository
-- (core/internal/policy) and on the findings it already knew (core/internal/baseline).
--
-- Files and code:
--   Ir.antt            core/internal/ir/ir.go: the records that the other parts read; Ir/Binding.antt
--                      which parameters an argument binds (BoundParam, BoundParams, Binds).
--   Fixpoint.antt      the dataflow loop that core/internal/cfg/cfg.go writes out twice, in
--                      computePostDominators and computeDominators. Fixpoint/ has one step
--                      (Transfer), what a sweep keeps (Invariant), its end (Solve), and its meaning
--                      in terms of walks (Walks, Exact).
--   Worklist.antt      the searches of Reaches, computeDominators and naturalLoop.
--   Cfg.antt           Build and computePostDominators; Cfg/Queries.antt the questions asked of the
--                      graph, Cfg/Dominance.antt computeDominators, Dominates and Reachable,
--                      Cfg/Loops.antt naturalLoop, Repetitions and Repeats. The other files of
--                      Cfg/ prove what these decide; Cfg/Paths.antt says what a path is.
--   Reachdef.antt      core/internal/reachdef/reachdef.go: definitionsOf, usesOf and reaches;
--                      Reachdef/Split.antt the rewriting (splitValue, rewire, rewritten, run, Split).
--   CallGraph.antt     core/internal/ir/ir.go: ReachableFrom, with the map from names to functions that
--                      NewIndex fills; CallGraph/ proves what it finds.
--   Regex.antt         core/internal/model/regexparse.go: sets of characters and nodes. Regex/ has the
--                      bytes, the quantifiers (readQuantifier, with unboundedBrace of redos.go), the
--                      classes and escapes (Classes), the parser (Parse) and AnchoredRegexExcludes
--                      (Summary), and adjacentAmbiguity (Adjacent). Regex/Matching.antt says what a
--                      parsed pattern matches, Regex/Leads.antt which characters a text of it
--                      has to begin with; the other files of Regex/ prove what the code answers
--                      right about that.
--   Taint.antt         core/internal/taint/taint.go: the state of the engine and the change of it
--                      (markTainted, chainScore, carriesRecord). In Taint/, Rules has what is asked of
--                      the model (core/internal/model/model.go), Index the lookups of NewIndex and
--                      build, Entered the questions asked of the state, Describe the edges, Propagate
--                      the worklist (propagate and all it calls), Seeded the start, Resolve the calls
--                      that complete a promise (resolveTargets), and Path tracePath, originOf and
--                      confidenceOf. Leads.antt says which hops a program has, Moves.antt which
--                      changes a round makes; the other files prove what comes of them.
--   Views.antt         core/internal/ir/ir.go: the views of a program. In Views/, Mapping is
--                      core/internal/flow/context.go (mapping, constructed, context), Resolve, Reach and
--                      Join core/internal/flow/flow.go (resolveRenders with atCallSites; reach with
--                      compose; write, render and JoinViews). Carries.antt says which value a program
--                      gives to a name; the other files prove what the join does.
--   Policy.antt        core/internal/policy/policy.go: the declarations, Load, Matches, RulesFor and
--                      ClassifyControl; Policy/Reported.antt core/internal/policy/context.go
--                      (NotReportedBecause). Policy/Loading.antt proves what Load accepts.
--   Baseline.antt      core/internal/baseline/baseline.go: Read, Write, Known and Count.
--   Samples/           tests on small functions, patterns, pages and declarations.
--   Prelude/           sets of names, Boolean tests and lists over native numbers.
--
-- Correspondence. Names of blocks, values and functions are texts. A Go map from names to sets is a
-- function into an option, `map[string]bool` is a list without repetition, and the map of blocks is a
-- list of blocks, since its key is the block's own name. Build ranges over that map in an order that
-- Go leaves open: the order is an argument, and theorems ask only that it visits each block once. The
-- two fields that computeDominators fills on its first call are computed at each call.
--
-- Patterns and texts are lists of bytes, and the position that the parser moves is the rest of the
-- pattern. The bitmap of a set is a function, read below 128 only. What a pattern matches is not in the
-- source: Regex/Matching.antt gives it, each byte of the pattern as the parser reads it, with `$` also
-- before a final line terminator, as a comment of the source has it.
--
-- The maps of the taint engine are functions that answer the zero value for an absent key, and its
-- indexes are the lists that a key would answer with, computed from the functions of the program. What a
-- rule finds as a source is an argument, with the columns of its row if it is a store read; the mark
-- of an edge that is assumed is left out. strings.ToLower is given for ASCII letters.
--
-- A function that the join writes to in place is passed on with the write done, and the sets `open` and
-- `seen` that a walk shares are passed along it. The JSON decoder and encoder of a policy and of a
-- baseline are arguments. Two findings of one fingerprint keep the order they came in, which sort.Slice
-- leaves open.
--
-- Loops and fuel. A sweep that changes anything removes a key from some set, so n * n + 1 sweeps
-- over n blocks are enough; a search takes a name off its queue in each round and expands a name
-- once, so the number of all successors (of all calls and passed functions, in the call graph), and
-- of the names it starts with, is enough. The propagation visits a value again only when the score
-- of its path falls, which is at most three, so one round for each source and four for each target
-- of a hop are enough, and the walk back along a path sees each classified value once. The search
-- for the calls that complete a promise takes up a function once. The parser makes at most three
-- calls for each byte. The walk up the views of a page (reach) stands on fuel as well, and there are
-- programs on which it does not end. Apart from that walk, all of this is proved, and the theorems
-- on the questions hold of the definitions with this fuel.
--
-- Not modelled: the JSON reading and writing, the analyses built on the graph, the finding of
-- sources, and the judgement at the sinks. Of the pattern analysis, the byte scanner of redos.go
-- (nestedAmbiguity) is left out.
mod Prelude
pub mod Ir
pub mod Fixpoint
pub mod Worklist
pub mod Cfg
pub mod Reachdef
pub mod CallGraph
pub mod Regex
pub mod Taint
pub mod Views
pub mod Policy
pub mod Baseline
mod Samples
