-- ===== src/Views/Latest.antt =====
-- core/internal/flow/context.go: of what is written into a mapping under a key, the last write decides,
-- whatever the mapping was built from.
use sast_engine.Prelude.{
  ℕ, suc, String, ◌≡◌, refl, false, not, ◌&&◌, ◌||◌, Option, none, some, List, [], ◌∷◌, StrSet,
  contains, same, same_iff, if◌then◌else◌, arith, insert, ◌∙◌,
}
use sast_engine.Ir.{Function, Write}
use sast_engine.Taint.Index.{owner_of_value, value_by_id}
use sast_engine.Views.{Names, bind}
use sast_engine.Views.Mapping.{written_names, mapping, call_names, flowed_names, literal_names}

-- the value of the last write with a value into a mapping under a key
unfoldable pub last_write : String → String → List Write → Option String
last_write id k [] = none
last_write id k (w ∷ ws) = elim (last_write id k ws) [
  | some later ↦ some later
  | none ↦ if same w.base id && same w.path k && not (same w.from "") then some w.from else none
]

written_names-last_write :
    (id k : String) (ws : List Write) (out : Names)
    → same k "" ≡ false
    → written_names id ws out k ≡ elim (last_write id k ws) [ some v ↦ some v | none ↦ out k ]
unfolding written_names last_write bind
written_names-last_write id k [] out n = refl
written_names-last_write id k (w ∷ ws) out n =
    let step : Names =
      if same w.base id && not (same w.path "") && not (same w.from "")
      then bind w.path w.from out
      else out in
    ground (arith, written_names-last_write id k ws step n, same_iff w.path k)

-- A mapping that is resolved at all carries, under a key that is written into it, the value of the last
-- such write.
pub mapping-last_write :
    (fns : List Function) (hops : ℕ) (opened : StrSet) (id k v : String) (fn : Function)
    → (same id "" || contains opened id) ≡ false
    → owner_of_value fns id ≡ some fn
    → same k "" ≡ false
    → last_write id k fn.writes ≡ some v
    → mapping fns (suc hops) opened id k ≡ some v
unfolding mapping
mapping-last_write fns hops opened id k v fn go owned named h =
    let inner = mapping fns hops (insert id opened) in
    let before : Names =
      call_names inner fns id fn.calls
        (flowed_names inner id fn.flows (literal_names (value_by_id fns id))) in
    rw (go, owned, mapping) (written_names-last_write id k fn.writes before named ∙ rw h refl)
