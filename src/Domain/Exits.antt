-- ===== src/Domain/Exits.antt =====
-- The exit set: which states leave, and in which order.
use statesman.Base.{
  ◌<◌, ◌≡◌, refl, true, false, none, some, List, [], ◌∷◌, ◌&&◌, ◌||◌, mem, length, arith, inl, inr,
  ◌↔◌, any, insert_all, insert, insert-IsDistinct, mem-insert_all, mem-keep, Bool-cases, IsDistinct,
  &&_iff, Option-cases, Bool, All-of_mem, All_mem, Any, any_iff,
}
use statesman.Definition.{Addr, Heap, Transition, internal, is_descendant}
use statesman.Definition.Ancestors.{IsTree, Below}
use statesman.Configuration.{Configuration, all_active}
use statesman.Configuration.Order.{
  Fits, Descending, mem-by_doc_order, mem-by_reverse_doc_order, by_reverse_doc_order-Descending,
}
use statesman.Domain.{get_transition_domain, exit_set_of, collect_exits, compute_exit_set}
use statesman.Domain.Lcca.{is_descendant_iff}

-- The test of the loop in `exitSetOf`.
abbrev pub exits : Heap → Transition → Addr → Bool
exits h t n = is_descendant h n (get_transition_domain h t)

-- The transition has a domain, and the state lies below it.
abbrev pub Leaves : Heap → Addr → Transition → Type 0
Leaves h n t = (d : Addr) × (get_transition_domain h t ≡ some d) × Below h n d

module _ (h : Heap) (cfg : Configuration) where
  -- A targetless transition has no domain, so the early return of `exitSetOf` agrees with its loop.
  internal-exits : (t : Transition) (n : Addr) → internal t ≡ true → exits h t n ≡ false
  unfolding get_transition_domain is_descendant
  internal-exits t n e = rw e

  pub mem-exit_set_of :
      (t : Transition) (n : Addr) → mem n (exit_set_of h cfg t) ≡ mem n cfg && exits h t n
  unfolding exit_set_of all_active
  mem-exit_set_of t n = elim (Bool-cases (internal t)) [
    | inl e ↦ rw (e, internal-exits t n e) (ground arith)
    | inr e ↦ rw (e, mem-keep n (exits h t)) (rw (mem-by_doc_order h n cfg))
  ]

  mem-collect_exits :
      (n : Addr) (ts : List Transition) (set : List Addr)
      → mem n (collect_exits h cfg ts set) ≡ mem n cfg && any (λ t. exits h t n) ts || mem n set
  unfolding collect_exits
  mem-collect_exits n [] set = ground arith
  mem-collect_exits n (t ∷ ts) set =
      rw (mem-collect_exits n ts (insert_all (exit_set_of h cfg t) set))
        (rw (mem-insert_all n (exit_set_of h cfg t) set, mem-exit_set_of t n) (ground arith))

  -- The states that leave are the active ones below the domain of one of the transitions.
  pub mem-compute_exit_set :
      (n : Addr) (ts : List Transition)
      → mem n (compute_exit_set h cfg ts) ≡ mem n cfg && any (λ t. exits h t n) ts
  unfolding compute_exit_set
  mem-compute_exit_set n ts =
      rw (mem-by_reverse_doc_order h n (collect_exits h cfg ts []), mem-collect_exits n ts [])
        (ground arith)

insert_all-IsDistinct : (xs ys : List Addr) → IsDistinct ys → IsDistinct (insert_all xs ys)
insert_all-IsDistinct [] ys d = d
insert_all-IsDistinct (x ∷ xs) ys d =
    insert_all-IsDistinct xs (insert x ys) (insert-IsDistinct x ys d)

collect_exits-IsDistinct :
    (h : Heap) (cfg : Configuration) (ts : List Transition) (set : List Addr)
    → IsDistinct set
    → IsDistinct (collect_exits h cfg ts set)
unfolding collect_exits
collect_exits-IsDistinct h cfg [] set d = d
collect_exits-IsDistinct h cfg (t ∷ ts) set d =
    collect_exits-IsDistinct h cfg ts (insert_all (exit_set_of h cfg t) set)
      (insert_all-IsDistinct (exit_set_of h cfg t) set d)

module _ (h : Heap) (tree : IsTree h) (cfg : Configuration) where
  -- In a chart that is a tree, with a configuration of its states, the exit set comes in strictly
  -- descending document order.
  pub compute_exit_set-Descending :
      (ts : List Transition) → Fits h cfg → Descending (compute_exit_set h cfg ts)
  unfolding compute_exit_set
  compute_exit_set-Descending ts fits =
      by_reverse_doc_order-Descending h tree (collect_exits h cfg ts [])
        (All-of_mem _ (collect_exits h cfg ts [])
          (λ n m. All_mem _ n cfg fits (active n (rw (mem-collect_exits h cfg n ts []) at m))))
        (collect_exits-IsDistinct h cfg ts [] tt)
    where
      active :
          (n : Addr) → (mem n cfg && any (λ t. exits h t n) ts || false) ≡ true → mem n cfg ≡ true
      active n m = ground arith

  descends_from_nil : (n : Addr) → is_descendant h n none ≡ false
  unfolding is_descendant
  descends_from_nil n = refl

  pub exits_iff : (n : Addr) (t : Transition) → n < length h → (exits h t n ≡ true) ↔ Leaves h n t
  exits_iff n t l = elim (Option-cases (get_transition_domain h t)) [
    | inl e ↦ (λ x. cc (descends_from_nil n, rw e at x), λ (d, f, b). cc)
    | inr (d, e) ↦ (
      λ x. (d, e, (is_descendant_iff h tree n d l).0 (rw e at x)),
      λ (d', f, b). rw f ((is_descendant_iff h tree n d' l).1 b),
    )
  ]

  -- In a chart that is a tree, with a configuration of its states, a state is in the exit set if
  -- and only if it is active and a proper descendant of the domain of one of the transitions.
  pub compute_exit_set_iff :
      (n : Addr) (ts : List Transition)
      → Fits h cfg
      → (mem n (compute_exit_set h cfg ts) ≡ true) ↔ ((mem n cfg ≡ true) × Any (Leaves h n) ts)
  compute_exit_set_iff n ts fits = (to, from)
    where
      some_exits : mem n cfg ≡ true → (any (λ t. exits h t n) ts ≡ true) ↔ Any (Leaves h n) ts
      some_exits m = any_iff _ (Leaves h n) ts (λ t. exits_iff n t (All_mem _ n cfg fits m))

      to : mem n (compute_exit_set h cfg ts) ≡ true → (mem n cfg ≡ true) × Any (Leaves h n) ts
      to m =
          let (active, out) = (&&_iff _ _).0 (rw (mem-compute_exit_set h cfg n ts) at m) in
          (active, (some_exits active).0 out)

      from : (mem n cfg ≡ true) × Any (Leaves h n) ts → mem n (compute_exit_set h cfg ts) ≡ true
      from (active, out) =
          rw (mem-compute_exit_set h cfg n ts) ((&&_iff _ _).1 (active, (some_exits active).1 out))
