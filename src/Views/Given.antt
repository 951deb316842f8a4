-- ===== src/Views/Given.antt =====
-- core/internal/flow/context.go: a mapping is found to carry only what the program gives it.
use sast_engine.Prelude.{
  ℕ, zero, suc, String, ◌≡◌, refl, inl, inr, Bool, true, false, not, ◌&&◌, ◌||◌, some, List, [],
  ◌∷◌, StrSet, contains, insert, same, same_iff, same-cases, if◌then◌else◌, arith, Bool-cases,
  Option-cases, Memᴰ, ◌∙◌, subst, none-not-some, some-injective,
}
use sast_engine.Ir.{Function, Flow, Call, Arg, Entry, Write}
use sast_engine.CallGraph.{func_by_id}
use sast_engine.Taint.Index.{value_by_id, owner_of_value}
use sast_engine.Views.{Names, no_names, bind, merge}
use sast_engine.Views.Mapping.{
  callee_name, callee_functions, entry_names, keyword_names, written_names, flowed_names,
  returned_names, built_names, constructed, updated_names, call_names, literal_names, mapping,
}
use sast_engine.Views.Carries.{Carries, IsGiven, entry, flowed, keyword, returned, updated, written}

module _ (fns : List Function) (id : String) where
  no_names-IsGiven : IsGiven fns id no_names
  unfolding no_names
  no_names-IsGiven k v h = absurd (none-not-some v h)

  bind-IsGiven :
      (name value : String) (out : Names)
      → Carries fns id name value
      → IsGiven fns id out
      → IsGiven fns id (bind name value out)
  unfolding bind
  bind-IsGiven name value out c g k v h = elim (same-cases name k) [
    | inl eq ↦
        let h' : (if same name k then some value else out k) ≡ some v = h in
        let e : value ≡ v = some-injective value v (ground (arith, h', same_iff name k)) in
        subst (λ w. Carries fns id w v) eq (subst (Carries fns id name) e c)
    | inr o ↦ g k v (rw o at h)
  ]

  merge-IsGiven :
      (into from : Names)
      → IsGiven fns id into
      → IsGiven fns id from
      → IsGiven fns id (merge into from)
  unfolding merge
  merge-IsGiven into from g f k v h = elim (Option-cases (from k)) [
    | inl n ↦ g k v (rw (n, merge) at h)
    | inr (w, s) ↦ f k v (s ∙ (rw (s, merge) at h))
  ]

  if-IsGiven :
      (t : Bool) (x y : Names)
      → (t ≡ true → IsGiven fns id x)
      → (t ≡ false → IsGiven fns id y)
      → IsGiven fns id (if t then x else y)
  if-IsGiven true x y f g = f refl
  if-IsGiven false x y f g = g refl

  entry_names-IsGiven :
      (xs : List Entry) (out : Names)
      → ((x : Entry) → Memᴰ x xs → Carries fns id x.key x.value_id)
      → IsGiven fns id out
      → IsGiven fns id (entry_names xs out)
  unfolding entry_names
  entry_names-IsGiven [] out c g = g
  entry_names-IsGiven (x ∷ xs) out c g =
      entry_names-IsGiven xs _ (λ y m. c y (Memᴰ.tail m))
        (if-IsGiven (same x.key "" || same x.value_id "") out (bind x.key x.value_id out) (λ t. g)
          (λ t. bind-IsGiven x.key x.value_id out (c x (Memᴰ.head refl)) g))

  keyword_names-IsGiven :
      (args : List Arg) (out : Names)
      → ((a : Arg) → Memᴰ a args → Carries fns id a.name a.value_id)
      → IsGiven fns id out
      → IsGiven fns id (keyword_names args out)
  unfolding keyword_names
  keyword_names-IsGiven [] out c g = g
  keyword_names-IsGiven (a ∷ args) out c g =
      keyword_names-IsGiven args _ (λ b m. c b (Memᴰ.tail m))
        (if-IsGiven (same a.name "" || same a.value_id "") out (bind a.name a.value_id out) (λ t. g)
          (λ t. bind-IsGiven a.name a.value_id out (c a (Memᴰ.head refl)) g))

  written_names-IsGiven :
      (ws : List Write) (out : Names)
      → ((w : Write) → Memᴰ w ws → w.base ≡ id → Carries fns id w.path w.from)
      → IsGiven fns id out
      → IsGiven fns id (written_names id ws out)
  unfolding written_names
  written_names-IsGiven [] out c g = g
  written_names-IsGiven (w ∷ ws) out c g =
      written_names-IsGiven ws _ (λ u m. c u (Memᴰ.tail m))
        (if-IsGiven (same w.base id && not (same w.path "") && not (same w.from ""))
          (bind w.path w.from out) out
          (λ t.
            bind-IsGiven w.path w.from out
              (c w (Memᴰ.head refl) ((same_iff w.base id).0 (ground arith))) g)
          (λ t. g))

  -- the loops that merge, when what the inner calls find is given
  module _ (inner : String → Names) (sound : (j : String) → IsGiven fns j (inner j)) where
    flowed_names-IsGiven :
        (fs : List Flow) (out : Names)
        → ((f : Flow)
            → Memᴰ f fs
            → f.to ≡ id
            → (k v : String) → Carries fns f.from k v
            → Carries fns id k v)
        → IsGiven fns id out
        → IsGiven fns id (flowed_names inner id fs out)
    unfolding flowed_names
    flowed_names-IsGiven [] out c g = g
    flowed_names-IsGiven (f ∷ fs) out c g =
        flowed_names-IsGiven fs _ (λ h m. c h (Memᴰ.tail m))
          (if-IsGiven (same f.to id && not (same f.from id)) (merge out (inner f.from)) out
            (λ t. merge-IsGiven out (inner f.from) g λ k v h.
              c f (Memᴰ.head refl) ((same_iff f.to id).0 (ground arith)) k v (sound f.from k v h))
            (λ t. g))

    returned_names-IsGiven :
        (rets : List String) (out : Names)
        → ((ret : String)
            → Memᴰ ret rets
            → (k v : String) → Carries fns ret k v
            → Carries fns id k v)
        → IsGiven fns id out
        → IsGiven fns id (returned_names inner rets out)
    unfolding returned_names
    returned_names-IsGiven [] out c g = g
    returned_names-IsGiven (r ∷ rets) out c g =
        returned_names-IsGiven rets _ (λ h m. c h (Memᴰ.tail m))
          (merge-IsGiven out (inner r) g λ k v h. c r (Memᴰ.head refl) k v (sound r k v h))

    updated_names-IsGiven :
        (args : List Arg) (out : Names)
        → ((a : Arg)
            → Memᴰ a args
            → (k v : String) → Carries fns a.value_id k v
            → Carries fns id k v)
        → IsGiven fns id out
        → IsGiven fns id (updated_names inner args out)
    unfolding updated_names
    updated_names-IsGiven [] out c g = g
    updated_names-IsGiven (a ∷ args) out c g =
        updated_names-IsGiven args _ (λ h m. c h (Memᴰ.tail m))
          (if-IsGiven (same a.name "" && not (same a.value_id "")) (merge out (inner a.value_id))
            out
            (λ t.
              merge-IsGiven out (inner a.value_id) g
                λ k v h. c a (Memᴰ.head refl) k v (sound a.value_id k v h))
            (λ t. g))

    built_names-IsGiven :
        (ids : List String) (out : Names)
        → ((name : String) (callee : Function) (ret : String)
            → Memᴰ name ids
            → func_by_id fns name ≡ some callee
            → Memᴰ ret callee.returns
            → (k v : String) → Carries fns ret k v
            → Carries fns id k v)
        → IsGiven fns id out
        → IsGiven fns id (built_names inner fns ids out)
    unfolding built_names
    built_names-IsGiven [] out c g = g
    built_names-IsGiven (name ∷ ids) out c g =
        built_names-IsGiven ids _ (λ n callee ret m. c n callee ret (Memᴰ.tail m))
          (elim (Option-cases (func_by_id fns name)) [
            | inl n ↦ rw n g
            | inr (callee, known) ↦ rw known (
                returned_names-IsGiven callee.returns out
                  (λ ret m. c name callee ret (Memᴰ.head refl) known m) g)
          ])

    module _ (fn : Function) (owned : owner_of_value fns id ≡ some fn) where
      constructed-IsGiven :
          (c : Call) → Memᴰ c fn.calls → c.result_id ≡ id → IsGiven fns id (constructed inner fns c)
      unfolding constructed
      constructed-IsGiven c m r =
          if-IsGiven (same (callee_name c) "dict") (keyword_names c.args no_names)
            (built_names inner fns (callee_functions c.callee) no_names)
            (λ t.
              keyword_names-IsGiven c.args no_names
                (λ a n. keyword id fn c a owned m r ((same_iff (callee_name c) "dict").0 t) n)
                no_names-IsGiven)
            (λ t.
              built_names-IsGiven (callee_functions c.callee) no_names
                (λ name callee ret n known k' k v w.
                  returned id k v fn c name callee ret owned m r n known k' w)
                no_names-IsGiven)

      call_names-IsGiven :
          (cs : List Call) (out : Names)
          → ((c : Call) → Memᴰ c cs → Memᴰ c fn.calls)
          → IsGiven fns id out
          → IsGiven fns id (call_names inner fns id cs out)
      unfolding call_names
      call_names-IsGiven [] out h g = g
      call_names-IsGiven (c ∷ cs) out h g =
          let m = h c (Memᴰ.head refl) in
          let made : Names =
            if same c.result_id id then merge out (constructed inner fns c) else out in
          let made_given : IsGiven fns id made =
            if-IsGiven (same c.result_id id) (merge out (constructed inner fns c)) out
              (λ t.
                merge-IsGiven out (constructed inner fns c) g
                  (constructed-IsGiven c m ((same_iff c.result_id id).0 t)))
              (λ t. g) in
          call_names-IsGiven cs _ (λ d k. h d (Memᴰ.tail k))
            (if-IsGiven (same c.receiver_id id && same c.method "update")
              (updated_names inner c.args made) made
              (λ t.
                updated_names-IsGiven c.args made
                  (λ a n k v w.
                    updated id k v fn c a owned m ((same_iff c.receiver_id id).0 (ground arith))
                      ((same_iff c.method "update").0 (ground arith)) n w)
                  made_given)
              (λ t. made_given))

literal_names-IsGiven :
    (fns : List Function) (id : String) → IsGiven fns id (literal_names (value_by_id fns id))
unfolding literal_names
literal_names-IsGiven fns id = elim (Option-cases (value_by_id fns id)) [
  | inl n ↦ rw n (no_names-IsGiven fns id)
  | inr (v, known) ↦ rw known (
      entry_names-IsGiven fns id v.entries no_names (λ x m. entry id v x known m)
        (no_names-IsGiven fns id))
]

-- Whatever name a mapping is found to carry, with whatever value, the program gives it: by a key of a
-- literal, a keyword of `dict`, a write under a literal key, or from a mapping that flows in, is
-- returned, or is handed to `update`.
pub mapping-IsGiven :
    (fns : List Function) (hops : ℕ) (opened : StrSet) (id : String)
    → IsGiven fns id (mapping fns hops opened id)
unfolding mapping
mapping-IsGiven fns zero opened id = no_names-IsGiven fns id
mapping-IsGiven fns (suc hops) opened id = elim (Bool-cases (same id "" || contains opened id)) [
  | inl stop ↦ rw (stop, mapping) (no_names-IsGiven fns id)
  | inr go ↦ elim (Option-cases (owner_of_value fns id)) [
    | inl nobody ↦ rw (go, nobody, mapping) (no_names-IsGiven fns id)
    | inr (fn, owned) ↦
        let inner = mapping fns hops (insert id opened) in
        let sound : (j : String) → IsGiven fns j (inner j) =
          λ j. mapping-IsGiven fns hops (insert id opened) j in
        rw (go, owned, mapping)
          (written_names-IsGiven fns id fn.writes _ (λ w m b. written id fn w owned m b)
            (call_names-IsGiven fns id inner sound fn owned fn.calls _ (λ c m. m)
              (flowed_names-IsGiven fns id inner sound fn.flows _
                (λ f m t k v w. flowed id k v fn f owned m t w) (literal_names-IsGiven fns id))))
  ]
]
