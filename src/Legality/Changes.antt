-- ===== src/Legality/Changes.antt =====
-- One microstep takes a legal configuration to a legal one: the states below a domain change, to
-- what the entry set holds there, and the others stay.
use statesman.Base.{
  ◌≡◌, refl, sym, ◌∙◌, ◌<◌, true, false, some, List, [], ◌∷◌, ◌⊎◌, inl, inr, mem, length, arith,
  Bool-cases, ◌==◌, ==_iff, ◌||◌, ◌&&◌, not, All, Any, All_mem, All-of_mem, any, ltb, ltb_iff,
  any_iff,
}
use statesman.Definition.{Addr, Heap, Transition, node}
use statesman.Definition.Ancestors.{Below, child, Below-inside, parent_inside}
use statesman.Configuration.{Configuration}
use statesman.Domain.{get_transition_domain, compute_exit_set}
use statesman.Domain.Exits.{Leaves, exits, exits_iff, mem-compute_exit_set}
use statesman.Domain.Lcca.{root-not-Below}
use statesman.Legality.{Within, OneChild, LocalAs, IsPlain, IsLegal}
use statesman.Legality.Subtrees.{
  Below-root, Below-parent, Within-cases, Below-of_child, siblings_apart, parent-IsChild,
}
use statesman.Legality.Sets.{LocalAs-children}
use statesman.Legality.Leaving.{
  Zone-in, domain_cases, child_stays, Leaves-down, domain-child-Leaves,
}
use statesman.Legality.Zones.{Zone, ZoneOf, parent_active}

-- The set `next` is the configuration without the exit set and with the entry set `e`, which holds
-- nothing but what it enters below the domains.
pub record Changed (h : Heap) (cfg : Configuration) (ts : List Transition) (e next : List Addr)
    : Type 0 where
  pub mem_next :
      (n : Addr) → mem n next ≡ mem n e || (not (mem n (compute_exit_set h cfg ts)) && mem n cfg)
  pub entered_below : (n : Addr) → (Any (Leaves h n) ts → ⊥) → mem n e ≡ false
  pub zones : All (ZoneOf h cfg ts e) ts

module _ (h : Heap) (plain : IsPlain h) (cfg : Configuration) (legal : IsLegal h cfg)
    (ts : List Transition) (e next : List Addr) (changed : Changed h cfg ts e next) where
  Leaves-cases : (n : Addr) → n < length h → Any (Leaves h n) ts ⊎ (Any (Leaves h n) ts → ⊥)
  Leaves-cases n l = by_test (Bool-cases (any (λ t. exits h t n) ts))
    where
      by_test :
          (any (λ t. exits h t n) ts ≡ true) ⊎ (any (λ t. exits h t n) ts ≡ false)
          → Any (Leaves h n) ts ⊎ (Any (Leaves h n) ts → ⊥)
      by_test (inl out) =
          inl ((any_iff _ (Leaves h n) ts (λ t. exits_iff h plain.tree cfg n t l)).0 out)
      by_test (inr stays) =
          inr (λ x.
            cc ((any_iff _ (Leaves h n) ts (λ t. exits_iff h plain.tree cfg n t l)).1 x, stays))

  -- Below a domain the next configuration is the entry set; elsewhere it is the old one.
  next_below : (n : Addr) → n < length h → Any (Leaves h n) ts → mem n next ≡ mem n e
  next_below n l out =
      let passes : any (λ t. exits h t n) ts ≡ true =
        (any_iff _ (Leaves h n) ts (λ t. exits_iff h plain.tree cfg n t l)).1 out in
      rw (changed.mem_next n, mem-compute_exit_set h cfg n ts, passes) (ground arith)

  next_elsewhere : (n : Addr) → n < length h → (Any (Leaves h n) ts → ⊥) → mem n next ≡ mem n cfg
  next_elsewhere n l stays =
      rw
        (changed.mem_next n, mem-compute_exit_set h cfg n ts, changed.entered_below n stays, passes)
        (ground arith)
    where
      passes : any (λ t. exits h t n) ts ≡ false
      passes = elim (Bool-cases (any (λ t. exits h t n) ts)) [
        | inl out ↦
            absurd
              (stays ((any_iff _ (Leaves h n) ts (λ t. exits_iff h plain.tree cfg n t l)).0 out))
        | inr stays' ↦ stays'
      ]

  next_inside : (n : Addr) → mem n next ≡ true → n < length h
  next_inside n m = elim (Bool-cases (ltb n (length h))) [
    | inl inside ↦ (ltb_iff n (length h)).0 inside
    | inr outside ↦
        let active : mem n cfg ≡ true =
          from_old (rw (changed.mem_next n, changed.entered_below n (not_leaving outside)) at m) in
        All_mem _ n cfg legal.0 active
  ]
    where
      Leaves-inside : (us : List Transition) → Any (Leaves h n) us → n < length h
      Leaves-inside [] l = absurd l
      Leaves-inside (u ∷ us) (inl (d, f, b)) = Below-inside h b
      Leaves-inside (u ∷ us) (inr l) = Leaves-inside us l

      not_leaving : ltb n (length h) ≡ false → Any (Leaves h n) ts → ⊥
      not_leaving outside l = (let lt = Leaves-inside ts l in ground arith)

      from_old : (not (mem n (compute_exit_set h cfg ts)) && mem n cfg) ≡ true → mem n cfg ≡ true
      from_old f = ground arith

  -- A state of the next configuration below the domain `d` lies in the subtree entered there.
  entered-Within :
      (n d : Addr) (zone : Zone h cfg ts e d)
      → Below h n d
      → mem n e ≡ true
      → Within h zone.filled.via n
  entered-Within n d zone b m =
      elim (Within-cases h plain.tree zone.filled.via n (Below-inside h b)) [
        | inl w ↦ w
        | inr out ↦ cc (zone.filled.rest_clear n b out, m)
      ]

  local_below :
      (n : Addr) → Any (Leaves h n) ts → mem n next ≡ true → LocalAs h (node h n).kind n next
  local_below n out m =
      let (d, zone, b, all_leave) = Zone-in h cfg e n ts ts changed.zones out in
      let inside = Below-inside h b in
      let m' : mem n e ≡ true = sym (next_below n inside out) ∙ m in
      LocalAs-children h plain.tree n e next (node h n).kind
        (λ c i.
          next_below c (plain.tree.child_lt n c inside i)
            (Leaves-down h n c ts (plain.tree.child_parent n c inside i) out))
        (zone.filled.full.local n (entered-Within n d zone b m') m')

  -- At a domain the child that is entered is the one child.
  local_domain :
      (n : Addr) (zone : Zone h cfg ts e n)
      → n < length h
      → Any (λ t. get_transition_domain h t ≡ some n) ts
      → OneChild h n next
  local_domain n zone l at_n = record {
    chosen = via;
    is_child = parent-IsChild h plain.tree via n up_via;
    present = next_child via up_via ∙ zone.filled.full.here;
    only = λ c i m. only_via c (plain.tree.child_parent n c l i) (Bool-cases (c == via)) m;
  }
    where
      via : Addr
      via = zone.filled.via

      up_via : (node h via).parent ≡ some n
      up_via = zone.filled.via_parent

      next_child : (c : Addr) → (node h c).parent ≡ some n → mem c next ≡ mem c e
      next_child c f = next_below c (parent_inside h c n f) (domain-child-Leaves h n c ts f at_n)

      apart : (c : Addr) → (node h c).parent ≡ some n → (c == via) ≡ false → Within h via c → ⊥
      apart c f other w =
          siblings_apart h plain.tree f up_via (λ x. (let y = x in ne c other y)) (inl refl) w
        where
          ne : (c : Addr) → (c == via) ≡ false → c ≡ via → ⊥
          ne c other x = ground arith

      only_via :
          (c : Addr)
          → (node h c).parent ≡ some n
          → ((c == via) ≡ true) ⊎ ((c == via) ≡ false)
          → mem c next ≡ true
          → c ≡ via
      only_via c f (inl same) m = (==_iff c via).0 same
      only_via c f (inr other) m =
          cc (m, next_child c f, zone.filled.rest_clear c (child f) (apart c f other))

  local_elsewhere :
      (n : Addr)
      → n < length h
      → (Any (Leaves h n) ts → ⊥)
      → mem n cfg ≡ true
      → LocalAs h (node h n).kind n next
  local_elsewhere n l stays m = elim (domain_cases h cfg e n ts ts changed.zones) [
    | inl (zone, at_n) ↦ rw zone.compound (local_domain n zone l at_n)
    | inr none_at ↦
        LocalAs-children h plain.tree n cfg next (node h n).kind
          (λ c i.
            let f = plain.tree.child_parent n c l i in
            next_elsewhere c (plain.tree.child_lt n c l i)
              (λ out. stays (child_stays h n c ts f none_at out)))
          (legal.1.local n (under_root n l) m)
  ]
    where
      under_root : (n : Addr) → n < length h → Within h 0 n
      under_root n l = elim (Bool-cases (n == 0)) [
        | inl same ↦ inl ((==_iff n 0).0 same)
        | inr other ↦ inr (Below-root h plain.tree n l (ground arith))
      ]

  next-local : (n : Addr) → mem n next ≡ true → LocalAs h (node h n).kind n next
  next-local n m = elim (Leaves-cases n (next_inside n m)) [
    | inl out ↦ local_below n out m
    | inr stays ↦
        let inside = next_inside n m in
        local_elsewhere n inside stays (sym (next_elsewhere n inside stays) ∙ m)
  ]

  closed_below :
      (n p : Addr)
      → Any (Leaves h n) ts
      → (node h n).parent ≡ some p
      → mem n next ≡ true
      → mem p next ≡ true
  closed_below n p out f m =
      let (d, zone, b, all_leave) = Zone-in h cfg e n ts ts changed.zones out in
      let m' : mem n e ≡ true = sym (next_below n (Below-inside h b) out) ∙ m in
      by_place d zone all_leave (entered-Within n d zone b m') m'
    where
      p_inside : p < length h
      p_inside =
          let inside = parent_inside h n p f in
          let lt = plain.tree.parent_lt n p inside f in omega arith

      by_place :
          (d : Addr) (zone : Zone h cfg ts e d)
          → ((m : Addr) → Below h m d → Any (Leaves h m) ts)
          → Within h zone.filled.via n
          → mem n e ≡ true
          → mem p next ≡ true
      by_place d zone all_leave (inl same) m' =
          let is_domain : p ≡ d = cc (zone.filled.via_parent, f, same) in
          next_elsewhere p p_inside (λ out. zone.outside (rw is_domain at out))
          ∙ rw is_domain zone.active
      by_place d zone all_leave (inr b) m' =
          let w = Below-parent h p b f in
          next_below p p_inside (all_leave p (Below-of_child h zone.filled.via_parent w))
          ∙ zone.filled.full.closed n p b f m'

  next-closed : (n p : Addr) → (node h n).parent ≡ some p → mem n next ≡ true → mem p next ≡ true
  next-closed n p f m = elim (Leaves-cases n (next_inside n m)) [
    | inl out ↦ closed_below n p out f m
    | inr stays ↦
        let inside = next_inside n m in
        let lt = plain.tree.parent_lt n p inside f in
        let active =
          parent_active h plain cfg legal n p f (sym (next_elsewhere n inside stays) ∙ m) in
        next_elsewhere p (omega arith) (λ out. stays (Leaves-down h p n ts f out)) ∙ active
  ]

  root_stays : (us : List Transition) → Any (Leaves h 0) us → ⊥
  root_stays [] l = absurd l
  root_stays (u ∷ us) (inl (d, f, b)) = root-not-Below h plain.tree d plain.root_inside b
  root_stays (u ∷ us) (inr l) = root_stays us l

  pub next-IsLegal : IsLegal h next
  next-IsLegal = (
    All-of_mem _ next next_inside,
    record {
      here = next_elsewhere 0 plain.root_inside (root_stays ts) ∙ legal.1.here;
      local = λ n w m. next-local n m;
      closed = λ n p b f m. next-closed n p f m;
    },
  )
