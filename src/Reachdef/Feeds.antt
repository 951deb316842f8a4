-- ===== src/Reachdef/Feeds.antt =====
-- A use that is rewired reads a version that every definition reaching it feeds.
use sast_engine.Prelude.{
  ℕ, ◌<◌, String, ◌≡◌, refl, sym, ◌∙◌, subst, not, ◌||◌, some, List, [], ◌∷◌, ◌++◌, nat_eq, length,
  get_elem?, arith, Bool-cases, Option-cases, ◌⊎◌, inl, inr, ◌≢◌,
}
use mathlib.Core.List.{foldl, Memᴰ}
use mathlib.Core.List.Memᴰ
use sast_engine.Ir.{Value, Flow, Function}
use sast_engine.Cfg.{Graph}
use sast_engine.Cfg.Build.{IsGraph}
use sast_engine.Cfg.Paths.{EntryPath}
use sast_engine.Cfg.Dominance.{reachable}
use sast_engine.Reachdef.{Place, Use, uses_of, reaching}
use sast_engine.Reachdef.Kill.{elem, IsOverwritten, reaching_sound}
use sast_engine.Reachdef.Split.{
  Rewrites, rewire, edges_to, same_key, Versions, find_version, new_version, version_name,
  split_use, split_value,
}
use sast_engine.Reachdef.Versions.{
  wired, wired-rewire, added-rewire, wired-new, Feeds, edges_to-Feeds, same_key-eq, Feeds-append,
}

module _ (g : Graph) (v : Value) (defs : List Flow) (all : List Use) (before : Rewrites) where
  -- A use in the list reads the version, some definitions reach it and some do not.
  abbrev Served : List Flow → Place → String → Type 0
  Served added p id =
      (u : Use) × Memᴰ u all
      × (u.place ≡ p)
      × (0 < length (reaching g defs u))
      × (length (reaching g defs u) ≢ length defs)
      × Feeds added id defs (reaching g defs u)

  record Loop (s : Rewrites) (vs : Versions) : Type 0 where
    known : (key : List ℕ) (id : String) → find_version vs key ≡ some id → Feeds s.added id defs key
    wires :
        (p : Place) (id : String)
        → wired s p ≡ some id
        → (wired before p ≡ some id) ⊎ Served s.added p id

  Served-append :
      (added more : List Flow) (p : Place) (id : String)
      → Served added p id
      → Served (added ++ more) p id
  Served-append added more p id (u, m, e, pos, ne, f) =
      (u, m, e, pos, ne, Feeds-append added more id defs (reaching g defs u) f)

  -- a use that reads a version that there is
  Loop-old :
      (s : Rewrites) (vs : Versions) (u : Use) (id : String)
      → Loop s vs
      → Memᴰ u all
      → 0 < length (reaching g defs u)
      → length (reaching g defs u) ≢ length defs
      → Feeds s.added id defs (reaching g defs u)
      → Loop (rewire s u.place id) vs
  Loop-old s vs u id i m pos ne f = record {
    known = λ key x h.
        subst (λ added. Feeds added x defs key) (sym (added-rewire s u.place id)) (i.known key x h);
    wires = λ p x h.
        subst (λ added. (wired before p ≡ some x) ⊎ Served added p x)
          (sym (added-rewire s u.place id))
          (elim (wired-rewire s u.place p id x h) [
            | inl (e, q) ↦
                inr (u, m, e, pos, ne, subst (λ y. Feeds s.added y defs (reaching g defs u)) q f)
            | inr old ↦ i.wires p x old
          ]);
  }

  -- a version that is made
  Loop-new :
      (s : Rewrites) (vs : Versions) (key : List ℕ) (id : String)
      → Loop s vs
      → Loop (new_version v defs key id s) ((key, id) ∷ vs)
  unfolding new_version find_version
  Loop-new s vs key id i = record {
    known = λ k x h. elim (Bool-cases (same_key key k)) [
      | inl e ↦
          let q : some id ≡ some x = rw (e, find_version) at h in
          let id_x : id ≡ x = cc in
          let key_k = same_key-eq key k e in
          λ n def m a. Memᴰ.append_right s.added (
            subst (λ y. Memᴰ (record def { to = y }) (edges_to id defs key)) id_x
              (edges_to-Feeds id defs key n def (rw key_k m) a))
      | inr ne ↦
          let h' : find_version vs k ≡ some x = rw (ne, find_version) at h in
          Feeds-append s.added (edges_to id defs key) x defs k (i.known k x h')
    ];
    wires = λ p x h. elim (i.wires p x (sym (wired-new v defs key id s p) ∙ h)) [
      | inl old ↦ inl old
      | inr served ↦ inr (Served-append s.added (edges_to id defs key) p x served)
    ];
  }

  new_version-Feeds :
      (s : Rewrites) (key : List ℕ) (id : String)
      → Feeds (new_version v defs key id s).added id defs key
  unfolding new_version
  new_version-Feeds s key id n def m a =
      Memᴰ.append_right s.added (edges_to-Feeds id defs key n def m a)

  split_use-Loop :
      (s : Rewrites) (vs : Versions) (u : Use)
      → Loop s vs
      → Memᴰ u all
      → Loop (split_use g v defs (s, vs) u).0 (split_use g v defs (s, vs) u).1
  unfolding split_use
  split_use-Loop s vs u i m = elim (Bool-cases (not (reachable g u.block))) [
    | inl out ↦ rw out i
    | inr in_reach ↦
        elim (Bool-cases (nat_eq (length key) 0 || nat_eq (length key) (length defs))) [
          | inl whole ↦ rw (in_reach, whole) i
          | inr part ↦
              let pos : 0 < length key = ground arith in
              let ne : length key ≢ length defs = λ e. ground arith in
              elim (Option-cases (find_version vs key)) [
                | inr (old, e) ↦
                    rw (in_reach, part, e, split_use)
                      (Loop-old s vs u old i m pos ne (i.known key old e))
                | inl fresh_key ↦
                    rw (in_reach, part, fresh_key, split_use)
                      (Loop-old (new_version v defs key id s) ((key, id) ∷ vs) u id
                        (Loop-new s vs key id i) m pos ne (new_version-Feeds s key id))
              ]
        ]
  ]
    where
      key : List ℕ
      key = reaching g defs u

      id : String
      id = version_name v.id (length s.new_vals)

  Loop-Loop :
      (us : List Use) (s : Rewrites) (vs : Versions)
      → Loop s vs
      → ((u : Use) → Memᴰ u us → Memᴰ u all)
      → Loop (foldl (split_use g v defs) (s, vs) us).0 (foldl (split_use g v defs) (s, vs) us).1
  Loop-Loop [] s vs i h = i
  Loop-Loop (u ∷ us) s vs i h =
      Loop-Loop us (split_use g v defs (s, vs) u).0 (split_use g v defs (s, vs) u).1
        (split_use-Loop s vs u i (h u (Memᴰ.head refl))) (λ w m. h w (Memᴰ.tail m))

-- In a graph that is built, after splitValue: a place that the call has rewired to a version is
-- that of a use of the value which some but not all of its definitions reach, and every definition
-- of the value either feeds the version or is overwritten on every path to the use. So the split
-- drops no value that an execution can read.
pub split_value_sound :
    (g : Graph)
    → IsGraph g
    → (fn : Function) (v : Value) (defs : List Flow) (before : Rewrites) (p : Place) (id : String)
    → wired (split_value fn g v defs before) p ≡ some id
    → (wired before p ≡ some id)
      ⊎ ((u : Use) × Memᴰ u (uses_of fn v.id)
          × (u.place ≡ p)
          × (0 < length (reaching g defs u))
          × (length (reaching g defs u) ≢ length defs)
          × ((k : ℕ) (def : Flow)
              → get_elem? defs k ≡ some def
              → Memᴰ (record def { to = id }) (split_value fn g v defs before).added
                ⊎ ((j : ℕ) × (later : Flow) × (get_elem? defs j ≡ some later)
                    × (j ≢ k)
                    × ((w : List String)
                        → EntryPath g u.block w
                        → (q : ℕ) × IsOverwritten w u def later q))))
unfolding split_value find_version
split_value_sound g ok fn v defs before p id h = elim (final.wires p id h) [
  | inl old ↦ inl old
  | inr (u, m, e, pos, ne, f) ↦ inr (
    u,
    m,
    e,
    pos,
    ne,
    λ k def a. elim (Bool-cases (elem k (reaching g defs u))) [
      | inl live ↦ inl (f k def live a)
      | inr dead ↦ inr (reaching_sound g ok defs u k def a dead)
    ],
  )
]
  where
    start : Loop g v defs (uses_of fn v.id) before before []
    start = record { known = λ key x e. absurd (ground arith); wires = λ q x e. inl e }

    final :
        Loop g v defs
          (uses_of fn v.id)
          before
          (foldl (split_use g v defs) (before, []) (uses_of fn v.id)).0
          (foldl (split_use g v defs) (before, []) (uses_of fn v.id)).1
    final = Loop-Loop g v defs (uses_of fn v.id) before (uses_of fn v.id) before [] start (λ u m. m)
