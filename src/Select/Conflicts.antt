-- ===== src/Select/Conflicts.antt =====
-- Parallel preemption: the transitions that are kept do not exit a state twice, and come from the
-- ones that were enabled.
use statesman.Base.{
  ◌≡◌, true, false, Bool, none, some, List, [], ◌∷◌, ◌++◌, not, mem, length, arith, ◌⊎◌, inl, inr,
  ◌↔◌, All, keep, Bool-cases, ltb, any_of_mem, mem_of_any, sort_by, All-sort_by, if◌then◌else◌, ℕ,
  Bool-ext, ◌≢◌, Option-cases, place, All-keep, All-concat,
}
use statesman.Definition.{Addr, Heap, Transition, is_descendant}
use statesman.Configuration.{Configuration}
use statesman.Domain.{exit_set_of}
use statesman.Select.{
  intersects, earlier, conflicts, admit, admit_all, remove_conflicting_transitions,
}

-- The smaller set is walked, and the answer is whether there is a common element.
pub intersects_iff :
    (a b : List Addr) → (intersects a b ≡ true) ↔ ((s : Addr) × (mem s a ≡ true) × (mem s b ≡ true))
unfolding intersects
intersects_iff a b = elim (Bool-cases (ltb (length b) (length a))) [
  | inl e ↦ rw e (
    λ m. let (s, in_b, in_a) = mem_of_any _ b m in (s, in_a, in_b),
    λ (s, in_a, in_b). any_of_mem (λ s. mem s a) s b in_b in_a,
  )
  | inr e ↦ rw e (mem_of_any _ a, λ (s, in_a, in_b). any_of_mem (λ s. mem s b) s a in_a in_b)
]

pub intersects_comm : (a b : List Addr) → intersects a b ≡ intersects b a
intersects_comm a b = Bool-ext _ _ (turn a b) (turn b a)
  where
    turn : (a b : List Addr) → intersects a b ≡ true → intersects b a ≡ true
    turn a b e =
        let (s, in_a, in_b) = (intersects_iff a b).0 e in (intersects_iff b a).1 (s, in_b, in_a)

module _ (h : Heap) (cfg : Configuration) where
  -- The two transitions exit no state in common.
  abbrev pub Apart : Transition → Transition → Type 0
  Apart t u = intersects (exit_set_of h cfg t) (exit_set_of h cfg u) ≡ false

  abbrev pub PairwiseApart : List Transition → Type 0
  PairwiseApart [] = Unit
  PairwiseApart (t ∷ ts) = All (Apart t) ts × PairwiseApart ts

  -- What one scan finds: each earlier transition is apart from `t1`, or is to be removed.
  conflicts_cover :
      (t1 : Transition) (filtered : List Transition) (acc r : List ℕ)
      → conflicts h cfg t1 (exit_set_of h cfg t1) filtered acc ≡ some r
      → All (λ t2. Apart t1 t2 ⊎ (mem t2.addr r ≡ true)) filtered
        × ((a : ℕ) → mem a acc ≡ true → mem a r ≡ true)
  unfolding conflicts
  conflicts_cover t1 [] acc r e = (tt, λ a m. (let same : acc ≡ r = cc in rw (← same) m))
  conflicts_cover t1 (t2 ∷ rest) acc r e =
      elim (Bool-cases (intersects (exit_set_of h cfg t1) (exit_set_of h cfg t2))) [
        | inl meet ↦ elim (Bool-cases (is_descendant h t1.source (some t2.source))) [
          | inl deeper ↦
              let (cover, more) = conflicts_cover t1 rest (t2.addr ∷ acc) r (ground arith) in
              ((inr (more t2.addr (ground arith)), cover), λ a m. more a (ground arith))
          | inr other ↦ absurd (ground arith)
        ]
        | inr apart ↦
            let (cover, more) = conflicts_cover t1 rest acc r (ground arith) in
            ((inl apart, cover), more)
      ]

  PairwiseApart-keep :
      (p : Transition → Bool) (ts : List Transition) → PairwiseApart ts → PairwiseApart (keep p ts)
  PairwiseApart-keep p [] a = tt
  PairwiseApart-keep p (t ∷ ts) a = elim (Bool-cases (p t)) [
    | inl e ↦ rw e (All-keep (Apart t) p ts a.0, PairwiseApart-keep p ts a.1)
    | inr e ↦ rw e (PairwiseApart-keep p ts a.1)
  ]

  PairwiseApart-concat :
      (ts : List Transition) (t : Transition)
      → PairwiseApart ts
      → All (Apart t) ts
      → PairwiseApart (ts ++ t ∷ [])
  PairwiseApart-concat [] t a b = (tt, tt)
  PairwiseApart-concat (u ∷ ts) t a b = (
    All-concat (Apart u) ts t a.0
        (rw (intersects_comm (exit_set_of h cfg u) (exit_set_of h cfg t)) b.0),
    PairwiseApart-concat ts t a.1 b.1,
  )

  kept-Apart :
      (t1 : Transition) (filtered : List Transition) (r : List ℕ)
      → All (λ t2. Apart t1 t2 ⊎ (mem t2.addr r ≡ true)) filtered
      → All (Apart t1) (keep (λ t2. not (mem t2.addr r)) filtered)
  kept-Apart t1 [] r a = tt
  kept-Apart t1 (t2 ∷ rest) r a = elim (Bool-cases (mem t2.addr r)) [
    | inl e ↦ rw e (kept-Apart t1 rest r a.1)
    | inr e ↦ rw e (by_side a.0 e, kept-Apart t1 rest r a.1)
  ]
    where
      by_side : Apart t1 t2 ⊎ (mem t2.addr r ≡ true) → mem t2.addr r ≡ false → Apart t1 t2
      by_side (inl apart) e = apart
      by_side (inr gone) e = cc

  admit_preempted :
      (t1 : Transition) (filtered : List Transition)
      → conflicts h cfg t1 (exit_set_of h cfg t1) filtered [] ≡ none
      → admit h cfg t1 filtered ≡ filtered
  unfolding admit
  admit_preempted t1 filtered e = rw (e, admit)

  admit_kept :
      (t1 : Transition) (filtered : List Transition) (r : List ℕ)
      → conflicts h cfg t1 (exit_set_of h cfg t1) filtered [] ≡ some r
      → admit h cfg t1 filtered ≡ keep (λ t2. not (mem t2.addr r)) filtered ++ t1 ∷ []
  unfolding admit
  admit_kept t1 filtered r e = rw (e, admit)

  admit-PairwiseApart :
      (t1 : Transition) (filtered : List Transition)
      → PairwiseApart filtered
      → PairwiseApart (admit h cfg t1 filtered)
  admit-PairwiseApart t1 filtered a =
      elim (Option-cases (conflicts h cfg t1 (exit_set_of h cfg t1) filtered [])) [
        | inl e ↦ rw (admit_preempted t1 filtered e) a
        | inr (r, e) ↦
            let (cover, more) = conflicts_cover t1 filtered [] r e in
            rw (admit_kept t1 filtered r e) (
              PairwiseApart-concat (keep (λ t2. not (mem t2.addr r)) filtered) t1
                (PairwiseApart-keep _ filtered a) (kept-Apart t1 filtered r cover))
      ]

  admit-All {κ} :
      (P : Transition → Type κ) (t1 : Transition) (filtered : List Transition)
      → P t1
      → All P filtered
      → All P (admit h cfg t1 filtered)
  admit-All P t1 filtered p a =
      elim (Option-cases (conflicts h cfg t1 (exit_set_of h cfg t1) filtered [])) [
        | inl e ↦ rw (admit_preempted t1 filtered e) a
        | inr (r, e) ↦
            rw (admit_kept t1 filtered r e) (All-concat P _ t1 (All-keep P _ filtered a) p)
      ]

  admit_all-PairwiseApart :
      (enabled filtered : List Transition)
      → PairwiseApart filtered
      → PairwiseApart (admit_all h cfg enabled filtered)
  unfolding admit_all
  admit_all-PairwiseApart [] filtered a = a
  admit_all-PairwiseApart (t ∷ ts) filtered a =
      admit_all-PairwiseApart ts (admit h cfg t filtered) (admit-PairwiseApart t filtered a)

  admit_all-All {κ} :
      (P : Transition → Type κ) (enabled filtered : List Transition)
      → All P enabled
      → All P filtered
      → All P (admit_all h cfg enabled filtered)
  unfolding admit_all
  admit_all-All P [] filtered p a = a
  admit_all-All P (t ∷ ts) filtered p a =
      admit_all-All P ts (admit h cfg t filtered) p.1 (admit-All P t filtered p.0 a)

  -- No two transitions that conflict resolution keeps exit a state in common.
  pub remove_conflicting-PairwiseApart :
      (enabled : List Transition) → PairwiseApart (remove_conflicting_transitions h cfg enabled)
  unfolding remove_conflicting_transitions
  remove_conflicting-PairwiseApart enabled =
      admit_all-PairwiseApart (sort_by (earlier h) enabled) [] tt

  -- What holds of every enabled transition holds of those that are kept.
  pub remove_conflicting-All {κ} :
      (P : Transition → Type κ) (enabled : List Transition)
      → All P enabled
      → All P (remove_conflicting_transitions h cfg enabled)
  unfolding remove_conflicting_transitions
  remove_conflicting-All P enabled a =
      admit_all-All P (sort_by (earlier h) enabled) [] (All-sort_by (earlier h) P enabled a) tt

  abbrev NonEmpty : List Transition → Type 0
  NonEmpty [] = ⊥
  NonEmpty (t ∷ ts) = Unit

  NonEmpty-concat : (ts : List Transition) (t : Transition) → NonEmpty (ts ++ t ∷ [])
  NonEmpty-concat [] t = tt
  NonEmpty-concat (u ∷ ts) t = tt

  -- The first transition meets nothing to be preempted by, and a later one only replaces.
  admit-NonEmpty :
      (t1 : Transition) (filtered : List Transition) → NonEmpty (admit h cfg t1 filtered)
  admit-NonEmpty t1 [] = unfold admit conflicts in tt
  admit-NonEmpty t1 (t2 ∷ rest) =
      elim (Option-cases (conflicts h cfg t1 (exit_set_of h cfg t1) (t2 ∷ rest) [])) [
        | inl e ↦ rw (admit_preempted t1 (t2 ∷ rest) e) tt
        | inr (r, e) ↦ rw (admit_kept t1 (t2 ∷ rest) r e) (NonEmpty-concat _ t1)
      ]

  admit_all-NonEmpty :
      (enabled filtered : List Transition)
      → NonEmpty filtered
      → NonEmpty (admit_all h cfg enabled filtered)
  unfolding admit_all
  admit_all-NonEmpty [] filtered a = a
  admit_all-NonEmpty (t ∷ ts) filtered a =
      admit_all-NonEmpty ts (admit h cfg t filtered) (admit-NonEmpty t filtered)

  either :
      (b : Bool) (t : Transition) (ts : List Transition) (u : Transition) (us : List Transition)
      → NonEmpty (if b then t ∷ ts else (u ∷ us))
  either true t ts u us = tt
  either false t ts u us = tt

  -- Conflict resolution keeps some transition of a list that is not empty.
  pub remove_conflicting_some :
      (t : Transition) (ts : List Transition) → remove_conflicting_transitions h cfg (t ∷ ts) ≢ []
  unfolding remove_conflicting_transitions admit_all
  remove_conflicting_some t ts e =
      empty (sort_by (earlier h) (t ∷ ts)) (placed t (sort_by (earlier h) ts)) e
    where
      placed : (t : Transition) (us : List Transition) → NonEmpty (place (earlier h) t us)
      placed t [] = tt
      placed t (u ∷ us) = either (earlier h t u) t (u ∷ us) u (place (earlier h) t us)

      empty : (us : List Transition) → NonEmpty us → admit_all h cfg us [] ≡ [] → ⊥
      empty [] a e = a
      empty (u ∷ us) a e = rw e at (admit_all-NonEmpty us (admit h cfg u []) (admit-NonEmpty u []))
