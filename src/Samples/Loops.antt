-- ===== src/Samples/Loops.antt =====
-- The loops of core/internal/cfg/cfg.go: tests, and the theorems on a small function.
use sast_engine.Prelude.{◌≡◌, refl, ◌↔◌, true, false, contains}
use mathlib.Core.List.{Memᴰ}
use sast_engine.Worklist.{drain, push_all}
use sast_engine.Cfg.Paths.{FromEntry, InLoop}
use sast_engine.Cfg.Loops.{
  Repetition, latches, dominated_preds, all_dominated, natural_loop, repetitions_in, repetitions,
  repeats,
}
use sast_engine.Cfg.Repeated.{natural_loop_iff}
use sast_engine.Cfg.Listed.{RepeatsIn, repetitions_iff}
use sast_engine.Samples.Graphs.{looped, looped-IsGraph, running}

-- The body repeats, and what follows the loop does not.
loop_runs : (repeats looped "body" ≡ true) × (repeats looped "use" ≡ false)
unfolding running drain push_all latches dominated_preds all_dominated natural_loop repetitions_in
    repetitions repeats
loop_runs = (refl, refl)

abbrev head_loop : Repetition
head_loop = record { header = "head"; bound = "more" }

natural_loop_iff_example :
    (contains (natural_loop looped "head") "body" ≡ true) ↔ InLoop looped "head" "body"
natural_loop_iff_example = natural_loop_iff looped looped-IsGraph "head" "body"

repetitions_iff_example :
    Memᴰ head_loop (repetitions looped "body")
    ↔ (FromEntry looped "body" × RepeatsIn looped "body" head_loop)
repetitions_iff_example = repetitions_iff looped looped-IsGraph "body" head_loop
