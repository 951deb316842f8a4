-- ===== src/Views/Endless.antt =====
-- core/internal/flow/flow.go: reach does not end for a view that draws itself in from inside a loop over
-- a field of the loop's own name, as a template for a tree does:
-- `{% for node in node.children %}{% include "tree.html" %}{% endfor %}`.
use sast_engine.Prelude.{
  ℕ, zero, suc, ◌+◌, ◌<◌, String, ◌≡◌, refl, inl, inr, true, false, none, some, List, [], ◌∷◌, ◌++◌,
  StrSet, contains, contains-insert, insert, same, same_self, select, arith, Bool-cases, same-cases,
  ap, sym, ◌∙◌,
}
use Prim.Native.String.{count, ◌++◌ as join}
use text.Mathlib.TextLemmas.{length-append}
use sast_engine.Views.{View, Rebind}
use sast_engine.Views.Reach.{
  cut, rebound, rebind_path, compose, insert_key, sort_keys, written_pairs, fingerprint, view_by_id,
  Walk, visit_key, walk_each, walk, reach,
}

-- the length of the key that a visit is remembered by
visit_key-count :
    (id name path : String)
    → count (visit_key id ((name, path) ∷ []))
      ≡ count id + count "\0" + count name + count "=" + count path + count ";"
unfolding visit_key fingerprint sort_keys insert_key written_pairs
visit_key-count id name path = omega (
  arith,
  length-append id (join "\0" (join name (join "=" (join path (join ";" ""))))),
  length-append "\0" (join name (join "=" (join path (join ";" "")))),
  length-append name (join "=" (join path (join ";" ""))),
  length-append "=" (join path (join ";" "")),
  length-append path (join ";" ""),
)

module _ (views : List View) (id name value rest : String) (v : View)
    (known : view_by_id views id ≡ some v)
    (itself : v.includes ≡ record { view = id; rebind = (name, value) ∷ [] } ∷ [])
    (childless : v.extends ≡ []) (below : cut value ≡ (name, rest))
    (named : same rest "" ≡ false) where
  rebind_path-grows :
      (path : String) → rebind_path value ((name, path) ∷ []) ≡ join path (join "." rest)
  unfolding rebind_path rebound
  rebind_path-grows path =
      let root_is : (cut value).0 ≡ name = ap (λ (c : String × String). c.0) below in
      let rest_is : (cut value).1 ≡ rest = ap (λ (c : String × String). c.1) below in
      rw (root_is, rebind_path) (rw (same_self name, rebound) (rw rest_is (rw named refl)))

  compose-grows :
      (path : String)
      → compose ((name, value) ∷ []) ((name, path) ∷ []) ≡ (name, join path (join "." rest)) ∷ []
  unfolding compose rebound select
  compose-grows path = rw (same_self name, rebind_path-grows path) refl

  compose-starts : compose ((name, value) ∷ []) [] ≡ (name, value) ∷ []
  unfolding compose rebind_path rebound select
  compose-starts = refl

  -- what was visited has a shorter key
  abbrev Shorter : Rebind → StrSet → Type 0
  Shorter m seen = (k : String) → contains seen k ≡ true → count k < count (visit_key id m)

  grows :
      (path : String)
      → count (visit_key id ((name, path) ∷ []))
        < count (visit_key id ((name, join path (join "." rest)) ∷ []))
  grows path = omega (
    arith,
    visit_key-count id name path,
    visit_key-count id name (join path (join "." rest)),
    length-append path (join "." rest),
    length-append "." rest,
  )

  longer :
      (path : String) (seen : StrSet)
      → Shorter ((name, path) ∷ []) seen
      → Shorter
          ((name, join path (join "." rest)) ∷ [])
          (insert (visit_key id ((name, path) ∷ [])) seen)
  longer path seen h k m = elim (same-cases (visit_key id ((name, path) ∷ [])) k) [
    | inl eq ↦
        let e : count k ≡ count (visit_key id ((name, path) ∷ [])) = ap count (sym eq) in
        omega (arith, e, grows path)
    | inr o ↦ omega (
      arith,
      grows path,
      h k (ground (arith, contains-insert (visit_key id ((name, path) ∷ [])) seen k)),
    )
  ]

  fresh_key : (m : Rebind) (seen : StrSet) → Shorter m seen → contains seen (visit_key id m) ≡ false
  fresh_key m seen h = elim (Bool-cases (contains seen (visit_key id m))) [
    | inl t ↦ absurd (omega (arith, h (visit_key id m) t))
    | inr f ↦ f
  ]

  abbrev after : Rebind → Walk → Walk
  after m w = record {
    seen = insert (visit_key id m) w.seen;
    out = w.out ++ record { id = id; rebind = m } ∷ [];
  }

  -- a visit that is not remembered goes on to the next
  walk-next :
      (fuel : ℕ) (m : Rebind) (w : Walk)
      → contains w.seen (visit_key id m) ≡ false
      → walk views fuel id (compose ((name, value) ∷ []) m) (after m w) ≡ none
      → walk views (suc fuel) id m w ≡ none
  unfolding walk walk_each
  walk-next fuel m w n h = rw (n, known, childless, itself, walk, walk_each) (rw h refl)

  walk-none :
      (fuel : ℕ) (path : String) (w : Walk)
      → Shorter ((name, path) ∷ []) w.seen
      → walk views fuel id ((name, path) ∷ []) w ≡ none
  unfolding walk
  walk-none zero path w h = refl
  walk-none (suc fuel) path w h =
      walk-next fuel ((name, path) ∷ []) w (fresh_key ((name, path) ∷ []) w.seen h) (
        ap (λ m. walk views fuel id m (after ((name, path) ∷ []) w)) (compose-grows path)
        ∙ walk-none fuel (join path (join "." rest)) (after ((name, path) ∷ []) w)
            (longer path w.seen h))

  starts-Shorter : Shorter ((name, value) ∷ []) (insert (visit_key id []) [])
  unfolding insert contains visit_key fingerprint sort_keys written_pairs
  starts-Shorter k m = elim (same-cases (visit_key id []) k) [
    | inl eq ↦
        let e : count k ≡ count (join id (join "\0" "")) = ap count (sym eq) in
        omega (arith, e, visit_key-count id name value, length-append id (join "\0" ""))
    | inr o ↦ absurd (ground (arith, m, o))
  ]

  walk-starts : (fuel : ℕ) → walk views fuel id [] record { seen = []; out = [] } ≡ none
  unfolding walk contains
  walk-starts zero = refl
  walk-starts (suc fuel) =
      let w : Walk = record { seen = []; out = [] } in
      walk-next fuel [] w refl (
        ap (λ m. walk views fuel id m (after [] w)) compose-starts
        ∙ walk-none fuel value (after [] w) starts-Shorter)

  -- If a view draws in itself alone, and rebinds a name to a field of that name, reach runs out of any
  -- fuel when it starts there.
  pub reach-endless : (fuel : ℕ) → reach views fuel id ≡ none
  unfolding reach contains
  reach-endless fuel = rw (walk-starts fuel, reach) refl
