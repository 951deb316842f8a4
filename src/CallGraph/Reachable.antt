-- ===== src/CallGraph/Reachable.antt =====
-- ReachableFrom finds what the roots can reach, and no more.
use sast_engine.Prelude.{
  ℕ, zero, suc, ◌+◌, ◌≤◌, String, ◌≡◌, refl, sym, ◌∙◌, subst, ◌↔◌, inl, inr, true, ◌||◌, some, none,
  List, [], ◌∷◌, ◌++◌, StrSet, contains, contains-append, contains-head, same, same-cases, length,
  length-append, arith, Bool-cases, Option-cases,
}
use sast_engine.Ir.{Function}
use sast_engine.CallGraph.{
  func_by_id, called, passed, Search, mark_all, expand, search_from, all_targets, or_nothing_seen,
  reachable_from, Hands, Reached, root, hand,
}
use sast_engine.CallGraph.Marks.{Marked, mark_all-Marked, mark_all-le, unseen}

Marked-trans :
    (ids js : List String) (s t u : Search)
    → Marked ids s t
    → Marked js t u
    → Marked (ids ++ js) s u
Marked-trans ids js s t u m n = record {
  seen = λ k. ground (arith, m.seen k, n.seen k, contains-append ids js k);
  waits = λ k w. n.waits k (m.waits k w);
  only = λ k w. ground (arith, m.only k, n.only k w, contains-append ids js k);
  new = λ k w. ground (arith, m.new k, n.new k w, n.waits k);
}

-- What a function hands control to stands among all the targets.
func_by_id-targets :
    (fns : List Function) (id : String) (fn : Function) (k : String)
    → func_by_id fns id ≡ some fn
    → (contains (called fn.calls) k || contains (passed fn.calls) k) ≡ true
    → contains (all_targets fns) k ≡ true
unfolding func_by_id all_targets
func_by_id-targets [] id fn k e m = absurd (ground (arith, e))
func_by_id-targets (f ∷ fns) id fn k e m = elim (Option-cases (func_by_id fns id)) [
  | inr (later, o) ↦
      let e' : some later ≡ some fn = rw (o, func_by_id) at e in
      let f' : later ≡ fn = cc in
      let o' : func_by_id fns id ≡ some fn = subst (λ x. func_by_id fns id ≡ some x) f' o in
      ground (
        arith,
        func_by_id-targets fns id fn k o' m,
        contains-append (called f.calls) (passed f.calls ++ all_targets fns) k,
        contains-append (passed f.calls) (all_targets fns) k,
      )
  | inl o ↦ elim (Bool-cases (same f.id id)) [
    | inl y ↦
        let e' : some f ≡ some fn = rw (o, y, func_by_id) at e in
        let f' : fn ≡ f = cc in
        let m' : (contains (called f.calls) k || contains (passed f.calls) k) ≡ true =
          subst
            (λ (x : Function). (contains (called x.calls) k || contains (passed x.calls) k) ≡ true)
            f' m in
        ground (
          arith,
          m',
          contains-append (called f.calls) (passed f.calls ++ all_targets fns) k,
          contains-append (passed f.calls) (all_targets fns) k,
        )
    | inr n ↦ let e' : none ≡ some fn = rw (o, n, func_by_id) at e in cc
  ]
]

module _ (fns : List Function) (roots : List String) where
  pub record Inv (seen : StrSet) (queue : List String) : Type 0 where
    pub from_roots : (k : String) → contains roots k ≡ true → contains seen k ≡ true
    pub waiting : (k : String) → contains queue k ≡ true → contains seen k ≡ true
    pub done :
        (j k : String)
        → contains seen j ≡ true
        → Hands fns j k
        → (contains queue j || contains seen k) ≡ true
    pub sound : (k : String) → contains seen k ≡ true → Reached fns roots k

  start-Inv : Inv (mark_all roots ([], [])).0 (mark_all roots ([], [])).1
  unfolding contains
  start-Inv =
      let m = mark_all-Marked roots ([], []) in
      record {
        from_roots = λ k r. ground (arith, m.seen k);
        waiting = λ k r. ground (arith, m.seen k, m.only k r);
        done = λ j k r h. ground (arith, m.new j r);
        sound = λ k r. root k (ground (arith, m.seen k));
      }

  step-none :
      (seen : StrSet) (id : String) (queue : List String)
      → Inv seen (id ∷ queue)
      → func_by_id fns id ≡ none
      → Inv seen queue
  unfolding contains
  step-none seen id queue i n = record {
    from_roots = i.from_roots;
    waiting = λ k w. i.waiting k (ground arith);
    done = λ j k r h. elim (same-cases id j) [
      | inl e ↦
          let (fn, f, _) = h in
          let f' : func_by_id fns id ≡ some fn =
            subst (λ x. func_by_id fns x ≡ some fn) (sym e) f in
          absurd (ground arith)
      | inr o ↦ ground (arith, i.done j k r h)
    ];
    sound = i.sound;
  }

  step-some :
      (seen : StrSet) (id : String) (queue : List String) (fn : Function) (t : Search)
      → Inv seen (id ∷ queue)
      → func_by_id fns id ≡ some fn
      → Marked (called fn.calls ++ passed fn.calls) (seen, queue) t
      → Inv t.0 t.1
  unfolding contains
  step-some seen id queue fn t i f m = record {
    from_roots = λ k r. ground (arith, m.seen k, i.from_roots k r);
    waiting = λ k w. ground (arith, m.seen k, m.only k w, i.waiting k);
    done = λ j k r h. elim (Bool-cases (contains seen j)) [
      | inr o ↦ ground (arith, m.new j r)
      | inl y ↦ elim (same-cases id j) [
        | inr o ↦ ground (arith, i.done j k y h, m.waits j, m.seen k)
        | inl e ↦
            let (fn', f', g) = h in
            let f2 : func_by_id fns id ≡ some fn' =
              subst (λ x. func_by_id fns x ≡ some fn') (sym e) f' in
            let e2 : some fn' ≡ some fn = sym f2 ∙ f in
            let e3 : fn' ≡ fn = cc in
            let g' : (contains (called fn.calls) k || contains (passed fn.calls) k) ≡ true =
              subst
                (λ (x : Function).
                  (contains (called x.calls) k || contains (passed x.calls) k) ≡ true)
                e3 g in
            ground (arith, m.seen k, contains-append (called fn.calls) (passed fn.calls) k, g')
      ]
    ];
    sound = λ k r. elim (Bool-cases (contains seen k)) [
      | inl y ↦ i.sound k y
      | inr o ↦
          hand id k (i.sound id (i.waiting id (contains-head id queue)))
            (fn, f, ground (arith, m.seen k, contains-append (called fn.calls) (passed fn.calls) k))
    ];
  }

  expand-Marked :
      (id : String) (s : Search) (fn : Function)
      → func_by_id fns id ≡ some fn
      → Marked (called fn.calls ++ passed fn.calls) s (expand fns id s)
  unfolding expand
  expand-Marked id s fn f =
      rw (f, expand)
        (Marked-trans (called fn.calls) (passed fn.calls) s (mark_all (called fn.calls) s)
          (mark_all (passed fn.calls) (mark_all (called fn.calls) s))
          (mark_all-Marked (called fn.calls) s)
          (mark_all-Marked (passed fn.calls) (mark_all (called fn.calls) s)))

  expand-Inv :
      (seen : StrSet) (id : String) (queue : List String)
      → Inv seen (id ∷ queue)
      → Inv (expand fns id (seen, queue)).0 (expand fns id (seen, queue)).1
  unfolding expand
  expand-Inv seen id queue i = elim (Option-cases (func_by_id fns id)) [
    | inl n ↦ rw (n, expand) (step-none seen id queue i n)
    | inr (fn, f) ↦
        step-some seen id queue fn (expand fns id (seen, queue)) i f
          (expand-Marked id (seen, queue) fn f)
  ]

  search-Inv :
      (fuel : ℕ) (seen : StrSet) (queue : List String) (r : StrSet)
      → Inv seen queue
      → search_from fns fuel seen queue ≡ some r
      → Inv r []
  unfolding search_from
  search-Inv fuel seen [] r i h = let e : seen ≡ r = cc in subst (λ s. Inv s []) e i
  search-Inv zero seen (id ∷ queue) r i h = cc
  search-Inv (suc fuel) seen (id ∷ queue) r i h =
      search-Inv fuel (expand fns id (seen, queue)).0 (expand fns id (seen, queue)).1 r
        (expand-Inv seen id queue i) h

  Reached-seen : (r : StrSet) → Inv r [] → {k : String} → Reached fns roots k → contains r k ≡ true
  unfolding contains
  Reached-seen r i (root k m) = i.from_roots k m
  Reached-seen r i (hand j k x h) = ground (arith, i.done j k (Reached-seen r i x) h)

  names : List String
  names = roots ++ all_targets fns

  expand-le :
      (id : String) (s : Search)
      → length (expand fns id s).1 + unseen (expand fns id s).0 names
        ≤ length s.1 + unseen s.0 names
  unfolding expand names
  expand-le id s = elim (Option-cases (func_by_id fns id)) [
    | inl n ↦ rw (n, expand) (omega arith)
    | inr (fn, f) ↦
        rw (f, expand)
          (omega (
            arith,
            mark_all-le (called fn.calls) names s (λ k m. ground (
              arith,
              func_by_id-targets fns id fn k f,
              contains-append roots (all_targets fns) k,
            )),
            mark_all-le (passed fn.calls) names (mark_all (called fn.calls) s) (λ k m. ground (
              arith,
              func_by_id-targets fns id fn k f,
              contains-append roots (all_targets fns) k,
            )),
          ))
  ]

  search_total :
      (fuel : ℕ) (seen : StrSet) (queue : List String)
      → length queue + unseen seen names ≤ fuel
      → (r : StrSet) × (search_from fns fuel seen queue ≡ some r)
  unfolding search_from
  search_total fuel seen [] h = (seen, refl)
  search_total zero seen (id ∷ queue) h = absurd (omega arith)
  search_total (suc fuel) seen (id ∷ queue) h =
      search_total fuel (expand fns id (seen, queue)).0 (expand fns id (seen, queue)).1
        (omega (arith, expand-le id (seen, queue)))

  unseen-start : (ks : List String) → unseen [] ks ≤ length ks
  unfolding unseen contains
  unseen-start [] = omega arith
  unseen-start (k ∷ ks) = omega (arith, unseen-start ks)

  enough :
      length (mark_all roots ([], [])).1 + unseen (mark_all roots ([], [])).0 names
      ≤ length roots + length (all_targets fns)
  unfolding names
  enough = omega (
    arith,
    mark_all-le roots names ([], [])
        (λ k m. ground (arith, contains-append roots (all_targets fns) k)),
    unseen-start names,
    length-append roots (all_targets fns),
  )

-- ReachableFrom(roots) is exactly the roots, what a local call of a reached function names, and what
-- such a function passes as an argument, whatever the functions and the roots are.
pub reachable_from_iff :
    (fns : List Function) (roots : List String) (k : String)
    → (contains (reachable_from fns roots) k ≡ true) ↔ Reached fns roots k
unfolding reachable_from or_nothing_seen
reachable_from_iff fns roots k =
    let (r, e) =
      search_total fns roots (length roots + length (all_targets fns)) (mark_all roots ([], [])).0
        (mark_all roots ([], [])).1 (enough fns roots) in
    let i = search-Inv fns roots _ _ _ r (start-Inv fns roots) e in
    rw e (i.sound k, λ x. Reached-seen fns roots r i x)
