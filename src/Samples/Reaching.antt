-- ===== src/Samples/Reaching.antt =====
-- Reaching definitions: the webhook whose value is replaced before it is read.
use sast_engine.Prelude.{
  ℕ, ◌<◌, String, ◌≡◌, refl, ◌≢◌, ◌⊎◌, none, some, false, List, [], ◌∷◌, length, get_elem?,
}
use mathlib.Core.List.{Memᴰ}
use sast_engine.Ir.{Flow, Function}
use sast_engine.Cfg.{Graph, graph_of, build}
use sast_engine.Cfg.Build.{IsGraph, build-IsGraph}
use sast_engine.Cfg.Paths.{EntryPath}
use sast_engine.Reachdef.{
  Use, Place, uses_of, reaching, reaching_from, survives, kills, can_reach, dominates_use,
  flow_uses, arg_uses, call_uses, definitions_of, checked_sites, is_param, defs_of, sites_in,
}
use sast_engine.Reachdef.Kill.{elem, IsOverwritten, reaching_sound}
use sast_engine.Reachdef.Split.{
  Rewrites, fresh, split_value, split_use, new_version, find_version, same_key, edges_to, rewire,
  version_name, decimal, digit, rewritten, rewritten_flows, rewritten_args, rewritten_calls,
  or_keep, split_values, run, run_all, replaced, split,
}
use sast_engine.Reachdef.Versions.{wired}
use sast_engine.Reachdef.Feeds.{split_value_sound}
use sast_engine.Reachdef.Recorded.{split_value-version_of}
use sast_engine.Samples.Programs.{webhook, edge_at, local}
use sast_engine.Samples.Graphs.{in_order, in_order-IsVisit, running}

abbrev hooked : Graph
hooked = graph_of in_order webhook

hooked-IsGraph : IsGraph hooked
unfolding build running
hooked-IsGraph = build-IsGraph in_order webhook hooked in_order-IsVisit refl

abbrev defs : List Flow
defs = edge_at "body" "event" 46 "start" ∷ edge_at "verified" "event" 56 "check" ∷ []

abbrev read_event : Use
read_event = record {
  block = "use";
  loc = record { file = "app.ts"; line = 62; column = 1 };
  place = Place.flow 2;
}

-- all that the tests compute with
splitting : Unit {0}
unfolding running build elem reaching reaching_from survives kills can_reach dominates_use uses_of
    flow_uses arg_uses call_uses definitions_of checked_sites is_param defs_of sites_in fresh
    split_value split_use new_version find_version same_key edges_to rewire version_name decimal
    digit rewritten rewritten_flows rewritten_args rewritten_calls or_keep split_values run run_all
    replaced split wired
splitting = tt

dead_definition : elem 0 (reaching hooked defs read_event) ≡ false
unfolding splitting
dead_definition = refl

reaching_sound_example :
    (j : ℕ) × (later : Flow) × (get_elem? defs j ≡ some later)
    × (j ≢ 0)
    × ((w : List String)
        → EntryPath hooked "use" w
        → (q : ℕ) × IsOverwritten w read_event (edge_at "body" "event" 46 "start") later q)
reaching_sound_example =
    reaching_sound hooked hooked-IsGraph defs read_event 0 (edge_at "body" "event" 46 "start") refl
      dead_definition

abbrev unsplit : Rewrites
unsplit = fresh (λ k. none)

rewired :
    wired (split_value webhook hooked (local "event") defs unsplit) (Place.flow 2)
    ≡ some "event#rd0"
unfolding splitting
rewired = refl

split_value_sound_example :
    (wired unsplit (Place.flow 2) ≡ some "event#rd0")
    ⊎ ((u : Use) × Memᴰ u (uses_of webhook "event")
        × (u.place ≡ Place.flow 2)
        × (0 < length (reaching hooked defs u))
        × (length (reaching hooked defs u) ≢ 2)
        × ((k : ℕ) (def : Flow)
            → get_elem? defs k ≡ some def
            → Memᴰ
                (record def { to = "event#rd0" })
                (split_value webhook hooked (local "event") defs unsplit).added
              ⊎ ((j : ℕ) × (later : Flow) × (get_elem? defs j ≡ some later)
                  × (j ≢ k)
                  × ((w : List String)
                      → EntryPath hooked u.block w
                      → (q : ℕ) × IsOverwritten w u def later q))))
split_value_sound_example =
    split_value_sound hooked hooked-IsGraph webhook (local "event") defs unsplit (Place.flow 2)
      "event#rd0" rewired

-- The read now has a version of its own, fed by the verified event alone.
abbrev split_webhook : Function
split_webhook = record webhook {
  values = local "event" ∷ record (local "event") { id = "event#rd0" } ∷ [];
  flows =
      edge_at "body" "event" 46 "start"
      ∷ edge_at "verified" "event" 56 "check"
      ∷ edge_at "event#rd0" "type" 62 "use"
      ∷ edge_at "verified" "event#rd0" 56 "check"
      ∷ [];
}

split_runs : (split in_order (webhook ∷ [])).0 ≡ split_webhook ∷ []
unfolding splitting
split_runs = refl

abbrev splitter : Rewrites
splitter = split_value webhook hooked (local "event") defs unsplit

split_value-version_of_example :
    (wired unsplit (Place.flow 2) ≡ some "event#rd0")
    ⊎ (splitter.version_of "event#rd0" ≡ some "event")
split_value-version_of_example =
    split_value-version_of webhook hooked (local "event") defs unsplit (Place.flow 2) "event#rd0"
      rewired
