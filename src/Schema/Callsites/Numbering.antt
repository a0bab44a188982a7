-- ===== src/Schema/Callsites/Numbering.antt =====
-- The callsites that `assignCallsites` (schema/resolve.go) hands out within a node.
use statesman.Base.{
  ◌≡◌, refl, ap, ◌∙◌, ℕ, zero, suc, ◌+◌, Option, none, some, List, [], ◌∷◌, ◌++◌, map, length,
  length-append, arith,
}
use statesman.Definition.{ActionRef, GuardRef, Transition, Invoke, StateNode}
use statesman.Schema.Callsites.{
  Counts, assign_actions, assign_guard, assign_edge, assign_edges, assign_invokes, assign_node,
}

-- `n` numbers from `k` on.
abbrev pub numbers : ℕ → ℕ → List (Option ℕ)
numbers k zero = []
numbers k (suc n) = some k ∷ numbers (suc k) n

-- The callsites of a node, in the order that the code documents: entry actions, transitions, exit
-- actions, the edges of the invokes.
abbrev pub action_sites : List ActionRef → List (Option ℕ)
action_sites acts = map (λ a. a.callsite) acts

abbrev pub guard_sites : Option GuardRef → List (Option ℕ)
guard_sites none = []
guard_sites (some g) = g.callsite ∷ []

abbrev pub edge_actions : List Transition → List (Option ℕ)
edge_actions [] = []
edge_actions (t ∷ ts) = action_sites t.actions ++ edge_actions ts

abbrev pub edge_guards : List Transition → List (Option ℕ)
edge_guards [] = []
edge_guards (t ∷ ts) = guard_sites t.guard ++ edge_guards ts

abbrev pub invoke_actions : List Invoke → List (Option ℕ)
invoke_actions [] = []
invoke_actions (iv ∷ ivs) =
    edge_actions iv.on_done ++ (edge_actions iv.on_error ++ invoke_actions ivs)

abbrev pub invoke_guards : List Invoke → List (Option ℕ)
invoke_guards [] = []
invoke_guards (iv ∷ ivs) = edge_guards iv.on_done ++ (edge_guards iv.on_error ++ invoke_guards ivs)

abbrev pub node_actions : StateNode → List (Option ℕ)
node_actions v =
    action_sites v.entry
    ++ (edge_actions v.transitions ++ (action_sites v.exit ++ invoke_actions v.invokes))

abbrev pub node_guards : StateNode → List (Option ℕ)
node_guards v = edge_guards v.transitions ++ invoke_guards v.invokes

-- The places `xs` now hold `ys`, the numbers from `k` on, and `k'` is the next one.
abbrev pub Numbered : List (Option ℕ) → List (Option ℕ) → ℕ → ℕ → Type 0
Numbered xs ys k k' = (ys ≡ numbers k (length xs)) × (k' ≡ k + length xs)

numbers-append : (k m n : ℕ) → numbers k m ++ numbers (k + m) n ≡ numbers k (m + n)
numbers-append k zero n =
    let left : k + 0 ≡ k = omega arith in
    let right : n ≡ 0 + n = omega arith in ap (λ j. numbers j n) left ∙ ap (λ j. numbers k j) right
numbers-append k (suc m) n =
    let left : k + suc m ≡ suc k + m = omega arith in
    let right : suc (m + n) ≡ suc m + n = omega arith in
    ap (◌∷◌ (some k)) (ap (λ j. numbers (suc k) m ++ numbers j n) left ∙ numbers-append (suc k) m n)
    ∙ ap (λ j. numbers k j) right

Numbered-nil : (k : ℕ) → Numbered [] [] k k
Numbered-nil k = (refl, omega arith)

Numbered-append :
    (xs ys xs' ys' : List (Option ℕ)) (k k' k'' : ℕ)
    → Numbered xs ys k k'
    → Numbered xs' ys' k' k''
    → Numbered (xs ++ xs') (ys ++ ys') k k''
Numbered-append xs ys xs' ys' k k' k'' (e, f) (e', f') =
    rw (e, e', f', f, length-append xs xs') (numbers-append k (length xs) (length xs'), omega arith)

actions-Numbered :
    (acts : List ActionRef) (k : Counts)
    → Numbered
        (action_sites acts)
        (action_sites (assign_actions acts k).0)
        k.action_count
        (assign_actions acts k).1.action_count
      × ((assign_actions acts k).1.guard_count ≡ k.guard_count)
unfolding assign_actions
actions-Numbered [] k = (Numbered-nil k.action_count, refl)
actions-Numbered (a ∷ acts) k =
    let ((e, f), g) = actions-Numbered acts (record k { action_count = suc k.action_count }) in
    ((ap (◌∷◌ (some k.action_count)) e, f ∙ omega arith), g)

-- Both kinds of callsites at once.
abbrev pub BothNumbered :
    List (Option ℕ) → List (Option ℕ) → List (Option ℕ) → List (Option ℕ) → Counts → Counts → Type 0
BothNumbered acts acts' guards guards' k k' =
    Numbered acts acts' k.action_count k'.action_count
    × Numbered guards guards' k.guard_count k'.guard_count

guard-Numbered :
    (t : Transition) (g : Option GuardRef) (k : Counts)
    → BothNumbered
        (action_sites t.actions)
        (action_sites (assign_actions t.actions (assign_guard g k).1).0)
        (guard_sites g)
        (guard_sites (assign_guard g k).0)
        k
        (assign_actions t.actions (assign_guard g k).1).1
unfolding assign_guard
guard-Numbered t none k =
    let (acts, same) = actions-Numbered t.actions k in (acts, (refl, same ∙ omega arith))
guard-Numbered t (some g) k =
    let (acts, same) = actions-Numbered t.actions (record k { guard_count = suc k.guard_count }) in
    (acts, (refl, same ∙ omega arith))

edge-Numbered :
    (t : Transition) (k : Counts)
    → BothNumbered
        (action_sites t.actions)
        (action_sites (assign_edge t k).0.actions)
        (guard_sites t.guard)
        (guard_sites (assign_edge t k).0.guard)
        k
        (assign_edge t k).1
unfolding assign_edge
edge-Numbered t k = guard-Numbered t t.guard k

edges-Numbered :
    (ts : List Transition) (k : Counts)
    → BothNumbered
        (edge_actions ts)
        (edge_actions (assign_edges ts k).0)
        (edge_guards ts)
        (edge_guards (assign_edges ts k).0)
        k
        (assign_edges ts k).1
unfolding assign_edges
edges-Numbered [] k = (Numbered-nil k.action_count, Numbered-nil k.guard_count)
edges-Numbered (t ∷ ts) k =
    let (a, g) = edge-Numbered t k in
    let (b, h) = edges-Numbered ts (assign_edge t k).1 in
    (Numbered-append _ _ _ _ _ _ _ a b, Numbered-append _ _ _ _ _ _ _ g h)

invokes-Numbered :
    (ivs : List Invoke) (k : Counts)
    → BothNumbered
        (invoke_actions ivs)
        (invoke_actions (assign_invokes ivs k).0)
        (invoke_guards ivs)
        (invoke_guards (assign_invokes ivs k).0)
        k
        (assign_invokes ivs k).1
unfolding assign_invokes
invokes-Numbered [] k = (Numbered-nil k.action_count, Numbered-nil k.guard_count)
invokes-Numbered (iv ∷ ivs) k =
    let k₁ = (assign_edges iv.on_done k).1 in
    let k₂ = (assign_edges iv.on_error k₁).1 in
    let (a, f) = edges-Numbered iv.on_done k in
    let (b, g) = edges-Numbered iv.on_error k₁ in
    let (c, h) = invokes-Numbered ivs k₂ in
    (
      Numbered-append _ _ _ _ _ _ _ a (Numbered-append _ _ _ _ _ _ _ b c),
      Numbered-append _ _ _ _ _ _ _ f (Numbered-append _ _ _ _ _ _ _ g h),
    )

-- The callsites of a node's actions, in the order entry, transitions, exit, invokes, are the
-- consecutive numbers from the action counter on, those of its guards the numbers from the guard
-- counter on, and the counters end behind them.
pub assign_node-BothNumbered :
    (v : StateNode) (k : Counts)
    → BothNumbered
        (node_actions v)
        (node_actions (assign_node v k).0)
        (node_guards v)
        (node_guards (assign_node v k).0)
        k
        (assign_node v k).1
unfolding assign_node
assign_node-BothNumbered v k =
    let k₁ = (assign_actions v.entry k).1 in
    let k₂ = (assign_edges v.transitions k₁).1 in
    let k₃ = (assign_actions v.exit k₂).1 in
    let (a, e) = actions-Numbered v.entry k in
    let (b, g) = edges-Numbered v.transitions k₁ in
    let (c, f) = actions-Numbered v.exit k₂ in
    let (d, h) = invokes-Numbered v.invokes k₃ in
    (
      Numbered-append _ _ _ _ _ _ _ a
          (Numbered-append _ _ _ _ _ _ _ b (Numbered-append _ _ _ _ _ _ _ c d)),
      Numbered-append _ _ _ _ _ _ _ (rw e at g) (rw f at h),
    )
