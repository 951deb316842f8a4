-- ===== src/Regex/Unbounded.antt =====
-- core/internal/model/regexparse.go: what containsUnbounded decides.
use sast_engine.Prelude.{◌≡◌, inl, inr, true, Bool-cases, arith, ◌↔◌}
use sast_engine.Regex.{char, group, assertion, Nodes, stop, node, Alts, none_left, branch}
use sast_engine.Regex.Adjacent.{contains_unbounded, seq_unbounded, node_unbounded}
use sast_engine.Regex.Leads.{Repeats, in_first, in_rest, RepeatsSeq, itself, further, within}

mutual
  unfolding contains_unbounded seq_unbounded node_unbounded

  contains_unbounded-Repeats : (alts : Alts) → contains_unbounded alts ≡ true → Repeats alts
  contains_unbounded-Repeats none_left e = absurd (ground arith)
  contains_unbounded-Repeats (branch seq alts) e = elim (Bool-cases (seq_unbounded seq)) [
    | inl y ↦ in_first seq alts (seq_unbounded-RepeatsSeq seq y)
    | inr n ↦ in_rest seq alts (contains_unbounded-Repeats alts (ground arith))
  ]

  seq_unbounded-RepeatsSeq : (seq : Nodes) → seq_unbounded seq ≡ true → RepeatsSeq seq
  seq_unbounded-RepeatsSeq stop e = absurd (ground arith)
  seq_unbounded-RepeatsSeq (node (assertion z q) seq) e = elim (Bool-cases q.unbounded) [
    | inl y ↦ itself (assertion z q) seq y
    | inr n ↦ further (assertion z q) seq (seq_unbounded-RepeatsSeq seq (ground arith))
  ]
  seq_unbounded-RepeatsSeq (node (char s q) seq) e = elim (Bool-cases q.unbounded) [
    | inl y ↦ itself (char s q) seq y
    | inr n ↦ further (char s q) seq (seq_unbounded-RepeatsSeq seq (ground arith))
  ]
  seq_unbounded-RepeatsSeq (node (group alts q) seq) e = elim (Bool-cases q.unbounded) [
    | inl y ↦ itself (group alts q) seq y
    | inr n ↦ elim (Bool-cases (contains_unbounded alts)) [
      | inl y ↦ within alts q seq (contains_unbounded-Repeats alts y)
      | inr o ↦ further (group alts q) seq (seq_unbounded-RepeatsSeq seq (ground arith))
    ]
  ]

mutual
  unfolding contains_unbounded seq_unbounded node_unbounded

  Repeats-contains_unbounded : {alts : Alts} → Repeats alts → contains_unbounded alts ≡ true
  Repeats-contains_unbounded (in_first seq alts r) = ground (arith, RepeatsSeq-seq_unbounded r)
  Repeats-contains_unbounded (in_rest seq alts r) = ground (arith, Repeats-contains_unbounded r)

  RepeatsSeq-seq_unbounded : {seq : Nodes} → RepeatsSeq seq → seq_unbounded seq ≡ true
  RepeatsSeq-seq_unbounded (itself (assertion z q) seq e) = ground arith
  RepeatsSeq-seq_unbounded (itself (char s q) seq e) = ground arith
  RepeatsSeq-seq_unbounded (itself (group alts q) seq e) = ground arith
  RepeatsSeq-seq_unbounded (further n seq r) = ground (arith, RepeatsSeq-seq_unbounded r)
  RepeatsSeq-seq_unbounded (within alts q seq r) = ground (arith, Repeats-contains_unbounded r)

-- A group has a repetition inside exactly if containsUnbounded says so.
pub contains_unbounded_iff : (alts : Alts) → (contains_unbounded alts ≡ true) ↔ Repeats alts
contains_unbounded_iff alts = (contains_unbounded-Repeats alts, λ r. Repeats-contains_unbounded r)
