-- ===== src/Prelude/Texts.antt =====
-- Go's tests on texts, by bytes: strings.Contains, strings.LastIndex, and for ASCII strings.ToLower.
use sast_engine.Prelude.Tests.{same, is_some, if◌then◌else◌}
use Prim.Native.Nat.{ℕ, zero, suc, ◌+◌, ◌-◌}
use Prim.Native.String.{String, [], ◌∷◌, len, slice, ◌++◌ as join}
use text.Mathlib.Text.{find?}
use mathlib.Core.Bool.{Bool}
use mathlib.Core.Option.{Option, none, some}

unfoldable pub contains_text : String → String → Bool
contains_text s t = is_some (find? s t)

-- `strings.HasSuffix`
unfoldable pub has_suffix : String → String → Bool
has_suffix s t = same (slice s (len s - len t) (len s)) t

-- what stands after the last dot; `none` if there is no dot. The fuel is the text's length.
unfoldable pub after_last_dot : ℕ → String → Option String
after_last_dot zero s = none
after_last_dot (suc fuel) s = elim (find? s ".") [
  | none ↦ none
  | some i ↦
      let rest = slice s (i + 1) (len s) in
      elim (after_last_dot fuel rest) [ some leaf ↦ some leaf | none ↦ some rest ]
]

-- `lastSegment` and `lastSegmentOf`
unfoldable pub last_segment : String → String
last_segment s = elim (after_last_dot (len s) s) [ some leaf ↦ leaf | none ↦ s ]

-- `strings.ToLower`, for texts of ASCII bytes
unfoldable pub to_lower : String → String
to_lower [] = []
to_lower (c ∷ s) =
    let rest = to_lower s in
    elim (find? "ABCDEFGHIJKLMNOPQRSTUVWXYZ" (c ∷ [])) [
      | some i ↦ join (slice "abcdefghijklmnopqrstuvwxyz" i (i + 1)) rest
      | none ↦ c ∷ rest
    ]

-- `strings.ReplaceAll(s, "_", "")`
unfoldable pub without_underscores : String → String
without_underscores [] = []
without_underscores (c ∷ s) =
    let rest = without_underscores s in if same (c ∷ []) "_" then rest else c ∷ rest
