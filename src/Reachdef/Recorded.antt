-- ===== src/Reachdef/Recorded.antt =====
-- core/internal/reachdef/reachdef.go: the versions of a value are recorded in `versionOf`, by which
-- analyses go back from a version to the value that the source names.
use sast_engine.Prelude.{
  ℕ, String, ◌≡◌, refl, sym, ◌∙◌, ap, subst, ◌⊎◌, inl, inr, not, ◌||◌, some, List, [], ◌∷◌, length,
  same_self, nat_eq, arith, Bool-cases, Option-cases,
}
use mathlib.Core.List.{foldl}
use sast_engine.Ir.{Value, Flow, Function}
use sast_engine.Cfg.{Graph}
use sast_engine.Cfg.Dominance.{reachable}
use sast_engine.Reachdef.{Place, Use, uses_of, reaching}
use sast_engine.Reachdef.Split.{
  Rewrites, rewire, same_key, Versions, find_version, new_version, version_name, split_use,
  split_value,
}
use sast_engine.Reachdef.Versions.{wired, wired-rewire, wired-new}

version_of-rewire :
    (s : Rewrites) (p : Place) (id : String) → (rewire s p id).version_of ≡ s.version_of
unfolding rewire
version_of-rewire s (Place.flow i) id = refl
version_of-rewire s (Place.receiver i) id = refl
version_of-rewire s (Place.arg i j) id = refl

module _ (g : Graph) (v : Value) (defs : List Flow) (before : Rewrites) where
  -- Every version of the loop, and every place that it rewires, goes back to the value.
  pub record Recorded (s : Rewrites) (vs : Versions) : Type 0 where
    pub known :
        (key : List ℕ) (id : String) → find_version vs key ≡ some id → s.version_of id ≡ some v.id
    pub wires :
        (p : Place) (id : String)
        → wired s p ≡ some id
        → (wired before p ≡ some id) ⊎ (s.version_of id ≡ some v.id)

  Recorded-rewire :
      (s : Rewrites) (vs : Versions) (p : Place) (id : String)
      → Recorded s vs
      → s.version_of id ≡ some v.id
      → Recorded (rewire s p id) vs
  Recorded-rewire s vs p id r h = record {
    known = λ key x e. ap (λ f. f x) (version_of-rewire s p id) ∙ r.known key x e;
    wires = λ q x e. elim (wired-rewire s p q id x e) [
      | inl (_, same_id) ↦ inr (
          ap (λ f. f x) (version_of-rewire s p id)
          ∙ subst (λ y. s.version_of y ≡ some v.id) same_id h)
      | inr old ↦ elim (r.wires q x old) [
        | inl o ↦ inl o
        | inr n ↦ inr (ap (λ f. f x) (version_of-rewire s p id) ∙ n)
      ]
    ];
  }

  -- A new version goes back to the value, and so does what did before.
  version_of-new :
      (s : Rewrites) (key : List ℕ) (id x : String)
      → s.version_of x ≡ some v.id
      → (new_version v defs key id s).version_of x ≡ some v.id
  unfolding new_version
  version_of-new s key id x h = ground arith

  version_of-own :
      (s : Rewrites) (key : List ℕ) (id : String)
      → (new_version v defs key id s).version_of id ≡ some v.id
  unfolding new_version
  version_of-own s key id = ground (arith, same_self id)

  Recorded-new :
      (s : Rewrites) (vs : Versions) (key : List ℕ) (id : String)
      → Recorded s vs
      → Recorded (new_version v defs key id s) ((key, id) ∷ vs)
  unfolding find_version
  Recorded-new s vs key id r = record {
    known = λ k x e. elim (Bool-cases (same_key key k)) [
      | inl y ↦
          let q : some id ≡ some x = rw (y, find_version) at e in
          let id_x : id ≡ x = cc in
          subst (λ z. (new_version v defs key id s).version_of z ≡ some v.id) id_x
            (version_of-own s key id)
      | inr n ↦ version_of-new s key id x (r.known k x (rw (n, find_version) at e))
    ];
    wires = λ p x e. elim (r.wires p x (sym (wired-new v defs key id s p) ∙ e)) [
      | inl o ↦ inl o
      | inr h ↦ inr (version_of-new s key id x h)
    ];
  }

  split_use-Recorded :
      (s : Rewrites) (vs : Versions) (u : Use)
      → Recorded s vs
      → Recorded (split_use g v defs (s, vs) u).0 (split_use g v defs (s, vs) u).1
  unfolding split_use
  split_use-Recorded s vs u r =
      let key = reaching g defs u in
      let id = version_name v.id (length s.new_vals) in
      elim (Bool-cases (not (reachable g u.block))) [
        | inl out ↦ rw out r
        | inr in_reach ↦
            elim (Bool-cases (nat_eq (length key) 0 || nat_eq (length key) (length defs))) [
              | inl whole ↦ rw (in_reach, whole) r
              | inr part ↦ elim (Option-cases (find_version vs key)) [
                | inr (old, e) ↦
                    rw (in_reach, part, e, split_use)
                      (Recorded-rewire s vs u.place old r (r.known key old e))
                | inl fresh_key ↦
                    rw (in_reach, part, fresh_key, split_use)
                      (Recorded-rewire (new_version v defs key id s) ((key, id) ∷ vs) u.place id
                        (Recorded-new s vs key id r) (version_of-own s key id))
              ]
            ]
      ]

  uses-Recorded :
      (us : List Use) (s : Rewrites) (vs : Versions)
      → Recorded s vs
      → Recorded (foldl (split_use g v defs) (s, vs) us).0 (foldl (split_use g v defs) (s, vs) us).1
  uses-Recorded [] s vs r = r
  uses-Recorded (u ∷ us) s vs r =
      uses-Recorded us (split_use g v defs (s, vs) u).0 (split_use g v defs (s, vs) u).1
        (split_use-Recorded s vs u r)

-- After splitValue, a place that is rewired to a version was so before the call, or versionOf takes the
-- version back to the value that is split.
pub split_value-version_of :
    (fn : Function) (g : Graph) (v : Value) (defs : List Flow) (before : Rewrites) (p : Place)
    (id : String)
    → wired (split_value fn g v defs before) p ≡ some id
    → (wired before p ≡ some id) ⊎ ((split_value fn g v defs before).version_of id ≡ some v.id)
unfolding split_value find_version
split_value-version_of fn g v defs before p id h =
    let start : Recorded g v defs before before [] = record {
      known = λ key x e. absurd (no_version key x e);
      wires = λ q x e. inl e;
    } in
    (uses-Recorded g v defs before (uses_of fn v.id) before [] start).wires p id h
  where
    no_version : (key : List ℕ) (x : String) → ¬ (find_version [] key ≡ some x)
    no_version key x e = cc
