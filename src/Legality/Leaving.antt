-- ===== src/Legality/Leaving.antt =====
-- The states that leave: each lies below a domain, and a child leaves where its parent does or where
-- its parent is the domain.
use statesman.Base.{
  ◌≡◌, ap, sym, ◌∙◌, false, some, List, [], ◌∷◌, ◌⊎◌, inl, inr, arith, Bool-cases, ◌==◌, ==_iff,
  All, Any, Option-cases,
}
use statesman.Definition.{Addr, Heap, Transition, node}
use statesman.Definition.Ancestors.{Below, child, up}
use statesman.Configuration.{Configuration}
use statesman.Domain.{get_transition_domain}
use statesman.Domain.Exits.{Leaves}
use statesman.Legality.{Within}
use statesman.Legality.Subtrees.{Below-parent}
use statesman.Legality.Zones.{Zone, ZoneOf}

module _ (h : Heap) (cfg : Configuration) (e : List Addr) where
  pub Zone-in :
      (n : Addr) (ts us : List Transition)
      → All (ZoneOf h cfg ts e) us
      → Any (Leaves h n) us
      → (d : Addr) × Zone h cfg ts e d
        × Below h n d
        × ((m : Addr) → Below h m d → Any (Leaves h m) us)
  Zone-in n ts [] z l = absurd l
  Zone-in n ts (u ∷ us) z (inl (d, f, b)) = (d, z.0 d f, b, λ m b'. inl (d, f, b'))
  Zone-in n ts (u ∷ us) z (inr l) =
      (let (d, zone, b, all_leave) = Zone-in n ts us z.1 l in
        (d, zone, b, λ m b'. inr (all_leave m b')))

  -- A state is the domain of one of the transitions, or of none.
  pub domain_cases :
      (n : Addr) (ts us : List Transition)
      → All (ZoneOf h cfg ts e) us
      → (Zone h cfg ts e n × Any (λ t. get_transition_domain h t ≡ some n) us)
        ⊎ All (λ t. get_transition_domain h t ≡ some n → ⊥) us
  domain_cases n ts [] z = inr tt
  domain_cases n ts (u ∷ us) z = elim (Option-cases (get_transition_domain h u)) [
    | inl f ↦ elim (domain_cases n ts us z.1) [
      | inl (zone, l) ↦ inl (zone, inr l)
      | inr others ↦ inr (λ g. cc, others)
    ]
    | inr (d, f) ↦ elim (Bool-cases (d == n)) [
      | inl same ↦
          let here = f ∙ ap (λ x. some x) ((==_iff d n).0 same) in inl (z.0 n here, inl here)
      | inr other ↦ elim (domain_cases n ts us z.1) [
        | inl (zone, l) ↦ inl (zone, inr l)
        | inr others ↦ inr (λ g. not_some d f other g, others)
      ]
    ]
  ]
    where
      not_some :
          (d : Addr)
          → get_transition_domain h u ≡ some d
          → (d == n) ≡ false
          → get_transition_domain h u ≡ some n
          → ⊥
      not_some d f other g = (let same : d ≡ n = cc in ground arith)

-- A child of a state that is no domain leaves only where its parent does.
pub child_stays :
    (h : Heap) (n c : Addr) (us : List Transition)
    → (node h c).parent ≡ some n
    → All (λ t. get_transition_domain h t ≡ some n → ⊥) us
    → Any (Leaves h c) us
    → Any (Leaves h n) us
child_stays h n c [] f none_at l = absurd l
child_stays h n c (u ∷ us) f none_at (inr l) = inr (child_stays h n c us f none_at.1 l)
child_stays h n c (u ∷ us) f none_at (inl (d, g, b)) = by_parent (Below-parent h n b f)
  where
    by_parent : Within h d n → Any (Leaves h n) (u ∷ us)
    by_parent (inl same) = absurd (none_at.0 (g ∙ ap (λ x. some x) (sym same)))
    by_parent (inr above) = inl (d, g, above)

pub Leaves-down :
    (h : Heap) (n c : Addr) (us : List Transition)
    → (node h c).parent ≡ some n
    → Any (Leaves h n) us
    → Any (Leaves h c) us
Leaves-down h n c [] f l = absurd l
Leaves-down h n c (u ∷ us) f (inl (d, g, b)) = inl (d, g, up f b)
Leaves-down h n c (u ∷ us) f (inr l) = inr (Leaves-down h n c us f l)

pub domain-child-Leaves :
    (h : Heap) (n c : Addr) (us : List Transition)
    → (node h c).parent ≡ some n
    → Any (λ t. get_transition_domain h t ≡ some n) us
    → Any (Leaves h c) us
domain-child-Leaves h n c [] f l = absurd l
domain-child-Leaves h n c (u ∷ us) f (inl g) = inl (n, g, child f)
domain-child-Leaves h n c (u ∷ us) f (inr l) = inr (domain-child-Leaves h n c us f l)
