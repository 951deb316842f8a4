-- ===== src/Worklist/Drain.antt =====
-- The search with a stack ends, and finds what can be reached.
use sast_engine.Prelude.{
  ℕ, zero, suc, ◌+◌, ◌≤◌, String, ◌≡◌, refl, sym, ◌∙◌, ◌⊎◌, inl, inr, true, ◌||◌, some, List, [],
  ◌∷◌, ◌++◌, StrSet, insert, contains, contains-append, subst, arith, Bool-cases, length,
}
use sast_engine.Worklist.{drain, push_all}
use sast_engine.Worklist.Ends.{unspent, spend}
use sast_engine.Worklist.Search.{Inv, Inv-drop, Inv-expand}

pub length-push_all :
    (ks stack : List String) → length (push_all ks stack) ≡ length ks + length stack
unfolding push_all
length-push_all [] stack = omega arith
length-push_all (k ∷ ks) stack = omega (arith, length-push_all ks (k ∷ stack))

pub contains-push_all :
    (ks stack : List String) (j : String)
    → contains (push_all ks stack) j ≡ (contains stack j || contains ks j)
unfolding push_all contains
contains-push_all [] stack j = ground arith
contains-push_all (k ∷ ks) stack j = ground (arith, contains-push_all ks (k ∷ stack) j)

module _ (next : String → List String) where
  module _ (nodes : List String)
      (known : (k : String) → (contains nodes k ≡ true) ⊎ (next k ≡ [])) where
    pub drain_total :
        (fuel : ℕ) (seen : StrSet) (stack : List String)
        → length stack + unspent next seen nodes ≤ fuel
        → (r : StrSet) × (drain next fuel seen stack ≡ some r)
    unfolding drain
    drain_total fuel seen [] h = (seen, refl)
    drain_total zero seen (id ∷ stack) h = absurd (omega arith)
    drain_total (suc fuel) seen (id ∷ stack) h = elim (Bool-cases (contains seen id)) [
      | inl old ↦ let (r, e) = drain_total fuel seen stack (omega arith) in (r, rw (old, drain) e)
      | inr new ↦
          let (r, e) =
            drain_total fuel (insert id seen) (push_all (next id) stack) (
              omega (arith, spend next nodes known seen id new, length-push_all (next id) stack)) in
          (r, rw (new, drain) e)
    ]

  module _ (roots : List String) where
    -- The order of the names that wait does not matter.
    Inv-reorder :
        (seen : StrSet) (queue stack : List String)
        → ((k : String) → contains queue k ≡ contains stack k)
        → Inv next roots seen queue
        → Inv next roots seen stack
    Inv-reorder seen queue stack h i = record {
      from_roots = λ k m. ground (arith, i.from_roots k m, h k);
      from_seen = λ j k m e. ground (arith, i.from_seen j k m e, h k);
      seen_sound = i.seen_sound;
      queue_sound = λ k m. i.queue_sound k (h k ∙ m);
    }

    pub drain-Inv :
        (fuel : ℕ) (seen : StrSet) (stack : List String) (r : StrSet)
        → Inv next roots seen stack
        → drain next fuel seen stack ≡ some r
        → Inv next roots r []
    unfolding drain
    drain-Inv fuel seen [] r i h = let e : seen ≡ r = cc in subst (λ s. Inv next roots s []) e i
    drain-Inv zero seen (id ∷ stack) r i h = cc
    drain-Inv (suc fuel) seen (id ∷ stack) r i h = elim (Bool-cases (contains seen id)) [
      | inl old ↦
          drain-Inv fuel seen stack r (Inv-drop next roots seen id stack i old)
            (rw (old, drain) at h)
      | inr new ↦
          drain-Inv fuel (insert id seen) (push_all (next id) stack) r
            (Inv-reorder (insert id seen) (stack ++ next id) (push_all (next id) stack)
              (λ k. contains-append stack (next id) k ∙ sym (contains-push_all (next id) stack k))
              (Inv-expand next roots seen id stack i))
            (rw (new, drain) at h)
    ]
