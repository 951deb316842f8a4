-- ===== src/Views/Reach.antt =====
-- core/internal/flow/flow.go: the views that a render reaches, and what the names in them stand for
-- (reach, compose, rebindPath, fingerprint). The walk calls itself, here on fuel; `none` means that the
-- fuel ran out.
use sast_engine.Prelude.{
  ℕ, zero, suc, ◌+◌, String, true, false, not, Option, none, some, List, [], ◌∷◌, ◌++◌, StrSet,
  contains, insert, same, is_some, if◌then◌else◌, select, map,
}
use Prim.Native.String.{len, slice, compare, ◌++◌ as join}
use Prim.Native.Nat.{Ordering}
use text.Mathlib.Text.{find?}
use sast_engine.Views.{View, Include, Rebind}

-- `strings.Cut(path, ".")`: what stands before the first dot and after it
unfoldable pub cut : String → String × String
cut path = elim (find? path ".") [
  | none ↦ (path, "")
  | some i ↦ (slice path 0 i, slice path (i + 1) (len path))
]

unfoldable pub rebound : Rebind → String → Option String
rebound [] name = none
rebound ((k, v) ∷ m) name = let rest = rebound m name in if same k name then some v else rest

unfoldable pub rebind_path : String → Rebind → String
rebind_path path m =
    let (root, rest) = cut path in
    elim (rebound m root) [
      | none ↦ path
      | some to ↦ if same rest "" then to else join to (join "." rest)
    ]

unfoldable pub compose : Rebind → Rebind → Rebind
compose [] outer = outer
compose (b ∷ inner) outer =
    map (λ (k, v). (k, rebind_path v outer)) (b ∷ inner)
    ++ select (λ (k, v). not (is_some (rebound (b ∷ inner) k))) outer

-- `sort.Strings` on the keys, with their values
unfoldable pub insert_key : String × String → Rebind → Rebind
insert_key b [] = b ∷ []
insert_key b (c ∷ m) =
    let rest = insert_key b m in elim (compare b.0 c.0) [ Ordering.gt ↦ c ∷ rest | _ ↦ b ∷ c ∷ m ]

unfoldable pub sort_keys : Rebind → Rebind
sort_keys [] = []
sort_keys (b ∷ m) = insert_key b (sort_keys m)

unfoldable pub written_pairs : Rebind → String
written_pairs [] = ""
written_pairs ((k, v) ∷ m) = join k (join "=" (join v (join ";" (written_pairs m))))

unfoldable pub fingerprint : Rebind → String
fingerprint m = written_pairs (sort_keys m)

-- `views[id]`, where the later of two views with one name is kept
unfoldable pub view_by_id : List View → String → Option View
view_by_id [] id = none
view_by_id (v ∷ vs) id = elim (view_by_id vs id) [
  | some later ↦ some later
  | none ↦ if same v.id id then some v else none
]

pub record ReachedView : Type 0 where
  pub id : String
  pub rebind : Rebind

-- `seen` and `out`
pub record Walk : Type 0 where
  pub seen : StrSet
  pub out : List ReachedView

unfoldable pub visit_key : String → Rebind → String
visit_key id m = join id (join "\0" (fingerprint m))

-- the loops of a walk, each step of which may run out of fuel
unfoldable pub walk_each {ℓ} : {A : Type ℓ} → (A → Walk → Option Walk) → List A → Walk → Option Walk
walk_each f [] w = some w
walk_each f (x ∷ xs) w = elim (f x w) [ none ↦ none | some w' ↦ walk_each f xs w' ]

unfoldable pub walk : List View → ℕ → String → Rebind → Walk → Option Walk
walk views zero id m w = none
walk views (suc fuel) id m w = elim (contains w.seen (visit_key id m)) [
  | true ↦ some w
  | false ↦ elim (view_by_id views id) [
    | none ↦ some record w { seen = insert (visit_key id m) w.seen }
    | some v ↦
        elim (walk_each (λ parent. walk views fuel parent m) v.extends
          record {
            seen = insert (visit_key id m) w.seen;
            out = w.out ++ record { id = id; rebind = m } ∷ [];
          }) [
            | none ↦ none
            | some w' ↦
                walk_each (λ (inc : Include). walk views fuel inc.view (compose inc.rebind m))
                  v.includes w'
          ]
  ]
]

unfoldable pub reach : List View → ℕ → String → Option (List ReachedView)
reach views fuel id = elim (walk views fuel id [] record { seen = []; out = [] }) [
  | none ↦ none
  | some w ↦ some w.out
]
