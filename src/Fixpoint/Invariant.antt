-- ===== src/Fixpoint/Invariant.antt =====
-- What one visit of the sweep keeps: the sets only shrink, and never below a given specification.
use sast_engine.Prelude.{
  String, ◌≡◌, sym, ◌∙◌, ◌↔◌, ◌⊎◌, inl, inr, Bool, true, false, StrSet, contains, same, arith,
  IsDistinct, Bool-cases, same-cases, Subset,
}
use sast_engine.Fixpoint.{SetMap, update, get, Problem, transfer}
use sast_engine.Fixpoint.Transfer.{
  get-update, get-update_self, contains-transfer, in_all_iff, any_admitted_iff, transfer-IsDistinct,
}

module _ (p : Problem) where
  -- A key is transferred if it is the block itself, or if some input counts and all that do have it.
  pub transfer_iff :
      (d : SetMap) (k a : String)
      → (contains (transfer p d k) a ≡ true) ↔ (
          (same k a ≡ true)
          ⊎ ((j : String) × (contains (p.inputs k) j ≡ true) × (p.admit d j ≡ true))
            × ((j : String)
                → contains (p.inputs k) j ≡ true
                → p.admit d j ≡ true
                → contains (get d j) a ≡ true))
  transfer_iff d k a =
      let any = any_admitted_iff p d (p.inputs k) in
      let every = in_all_iff p d a (p.inputs k) in
      (
        λ h. elim (Bool-cases (same k a)) [
          | inl e ↦ inl e
          | inr n ↦ inr (
            any.0 (ground (arith, contains-transfer p d k a)),
            every.0 (ground (arith, contains-transfer p d k a)),
          )
        ],
        λ h. elim h [
          | inl e ↦ ground (arith, contains-transfer p d k a)
          | inr (some_j, all_j) ↦
              ground (arith, contains-transfer p d k a, any.1 some_j, every.1 all_j)
        ],
      )

  pub transfer_mono :
      (d d' : SetMap)
      → ((j : String) → p.admit d' j ≡ p.admit d j)
      → ((j : String) → Subset (get d' j) (get d j))
      → (k : String) → Subset (transfer p d' k) (transfer p d k)
  transfer_mono d d' e h k a m = (transfer_iff d k a).1 (elim ((transfer_iff d' k a).0 m) [
    | inl s ↦ inl s
    | inr ((j, mem, adm), all_j) ↦
        inr ((j, mem, sym (e j) ∙ adm), λ i mi ai. h i a (all_j i mi (e i ∙ ai)))
  ])

-- `live` names the blocks that count, `Forced k a` says that `a` has to be in the set of `k`, and
-- `Within k a` that it may be.
pub record Spec (p : Problem) : Type 1 where
  pub live : String → Bool
  pub Forced : String → String → Type 0
  pub Within : String → String → Type 0
  pub stays :
      (d : SetMap) (k : String) (v : StrSet)
      → contains p.order k ≡ true
      → p.skip k ≡ false
      → ((j : String) → p.admit d j ≡ live j)
      → (j : String) → p.admit (update d k v) j ≡ live j
  pub forced :
      (k a : String)
      → live k ≡ true
      → p.skip k ≡ false
      → Forced k a
      → (same k a ≡ true)
        ⊎ ((j : String) × (contains (p.inputs k) j ≡ true) × (live j ≡ true))
          × ((j : String) → contains (p.inputs k) j ≡ true → live j ≡ true → Forced j a)

module _ (p : Problem) (s : Spec p) where
  pub record Inv (d : SetMap) : Type 0 where
    pub admitted : (j : String) → p.admit d j ≡ s.live j
    pub fixed :
        (k a : String)
        → contains p.order k ≡ true
        → s.live k ≡ true
        → p.skip k ≡ true
        → contains (get d k) a ≡ same k a
    pub falls :
        (k : String)
        → contains p.order k ≡ true
        → p.skip k ≡ false
        → Subset (transfer p d k) (get d k)
    pub distinct : (k : String) → IsDistinct (get d k)
    pub within : (k a : String) → contains (get d k) a ≡ true → s.Within k a
    pub full : (k a : String) → s.live k ≡ true → s.Forced k a → contains (get d k) a ≡ true

  -- A visit that changes something replaces the set of one block by what is transferred to it.
  abbrev pub step : SetMap → String → SetMap
  step d k = update d k (transfer p d k)

  module _ (d : SetMap) (k : String) (i : Inv d) (m : contains p.order k ≡ true)
      (n : p.skip k ≡ false) where
    step-Subset : (j : String) → Subset (get (step d k) j) (get d j)
    step-Subset j a h = elim (same-cases k j) [
      | inl e ↦
          let h' : contains (transfer p d k) a ≡ true = rw (← e, get-update_self) at h in
          rw (← e) (i.falls k m n a h')
      | inr e ↦ rw (get-update, e) at h
    ]

    step-admitted : (j : String) → p.admit (step d k) j ≡ s.live j
    step-admitted = s.stays d k (transfer p d k) m n i.admitted

    step-falls :
        (j : String)
        → contains p.order j ≡ true
        → p.skip j ≡ false
        → Subset (transfer p (step d k) j) (get (step d k) j)
    step-falls j mj nj a h =
        let below =
          transfer_mono p d (step d k) (λ l. step-admitted l ∙ sym (i.admitted l)) step-Subset j a
            h in
        elim (same-cases k j) [
          | inl e ↦ rw (← e, get-update_self) (rw (← e) at below)
          | inr e ↦ rw (get-update, e) (i.falls j mj nj a below)
        ]

    step-full :
        (j a : String) → s.live j ≡ true → s.Forced j a → contains (get (step d k) j) a ≡ true
    step-full j a l f = elim (same-cases k j) [
      | inl e ↦
          rw (← e, get-update_self)
            ((transfer_iff p d k a).1 (elim (s.forced k a (rw e l) n (rw e f)) [
              | inl h ↦ inl h
              | inr ((x, mx, lx), all_x) ↦ inr (
                (x, mx, i.admitted x ∙ lx),
                λ y my ay.
                    i.full y a (sym (i.admitted y) ∙ ay) (all_x y my (sym (i.admitted y) ∙ ay)),
              )
            ]))
      | inr e ↦ rw (get-update, e) (i.full j a l f)
    ]

    step-fixed :
        (j a : String)
        → contains p.order j ≡ true
        → s.live j ≡ true
        → p.skip j ≡ true
        → contains (get (step d k) j) a ≡ same j a
    step-fixed j a o l sk = elim (same-cases k j) [
      | inl e ↦ let sk' : p.skip k ≡ true = rw e sk in cc
      | inr e ↦ rw (get-update, e) (i.fixed j a o l sk)
    ]

    step-IsDistinct : (j : String) → IsDistinct (get (step d k) j)
    step-IsDistinct j = elim (same-cases k j) [
      | inl e ↦ rw (← e, get-update_self) (transfer-IsDistinct p d k i.distinct)
      | inr e ↦ rw (get-update, e) (i.distinct j)
    ]

    pub step-Inv : Inv (step d k)
    step-Inv = record {
      admitted = step-admitted;
      fixed = step-fixed;
      falls = step-falls;
      distinct = step-IsDistinct;
      within = λ j a h. i.within j a (step-Subset j a h);
      full = step-full;
    }
