-- ===== src/Schema/Callsites.antt =====
-- The numbering of callsites: `assignCallsites` of schema/resolve.go.
pub mod Numbering
use statesman.Base.{ℕ, suc, Option, none, some, List, [], ◌∷◌}
use statesman.Definition.{Addr, ActionRef, GuardRef, Transition, Invoke, StateNode, node}
use statesman.Schema.{Builder, write}

-- The two counters that the closures share.
pub record Counts : Type 0 where
  pub action_count : ℕ
  pub guard_count : ℕ

unfoldable pub assign_actions : List ActionRef → Counts → List ActionRef × Counts
assign_actions [] k = ([], k)
assign_actions (a ∷ acts) k =
    let (acts', k') = assign_actions acts (record k { action_count = suc k.action_count }) in
    (record a { callsite = some k.action_count } ∷ acts', k')

unfoldable pub assign_guard : Option GuardRef → Counts → Option GuardRef × Counts
assign_guard none k = (none, k)
assign_guard (some g) k = (
  some (record g { callsite = some k.guard_count }),
  record k { guard_count = suc k.guard_count },
)

-- `assignEdge`
unfoldable pub assign_edge : Transition → Counts → Transition × Counts
unfolding assign_actions assign_guard
assign_edge t k =
    let (g, k') = assign_guard t.guard k in
    let (acts, k'') = assign_actions t.actions k' in (record t { guard = g; actions = acts }, k'')

unfoldable pub assign_edges : List Transition → Counts → List Transition × Counts
unfolding assign_edge
assign_edges [] k = ([], k)
assign_edges (t ∷ ts) k =
    let (t', k') = assign_edge t k in let (ts', k'') = assign_edges ts k' in (t' ∷ ts', k'')

unfoldable pub assign_invokes : List Invoke → Counts → List Invoke × Counts
unfolding assign_edges
assign_invokes [] k = ([], k)
assign_invokes (iv ∷ ivs) k =
    let (on_done, k₁) = assign_edges iv.on_done k in
    let (on_error, k₂) = assign_edges iv.on_error k₁ in
    let (ivs', k₃) = assign_invokes ivs k₂ in
    (record iv { on_done = on_done; on_error = on_error } ∷ ivs', k₃)

-- Entry actions, transitions, exit actions, invokes.
unfoldable pub assign_node : StateNode → Counts → StateNode × Counts
unfolding assign_actions assign_edges assign_invokes
assign_node v k =
    let (entry, k₁) = assign_actions v.entry k in
    let (trs, k₂) = assign_edges v.transitions k₁ in
    let (exit, k₃) = assign_actions v.exit k₂ in
    let (ivs, k₄) = assign_invokes v.invokes k₃ in
    (record v { entry = entry; transitions = trs; exit = exit; invokes = ivs }, k₄)

unfoldable pub assign_nodes : List Addr → Builder → Counts → Builder × Counts
unfolding assign_node
assign_nodes [] b k = (b, k)
assign_nodes (n ∷ ns) b k =
    let (v, k') = assign_node (node b.heap n) k in assign_nodes ns (write n v b) k'

unfoldable pub assign_callsites : Builder → Builder × Counts
unfolding assign_nodes
assign_callsites b = assign_nodes b.ordered b (record { action_count = 0; guard_count = 0 })
