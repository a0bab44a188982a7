-- ===== src/Machine/Invokes.antt =====
-- The invoked children: `reconcileInvokes`, `restartsSnapshot`, `childByAddress` of actors.go and
-- `drainOutbox` of machine.go. Maps are walked in the order of the model.
use statesman.Base.{
  ℕ, suc, ◌-◌, String, Bool, Option, none, some, List, [], ◌∷◌, ◌++◌, str_eq, leb, any, find,
  if◌then◌else◌, false, ◌>>=◌,
}
use statesman.Definition.{Addr, Heap, Invoke, node}
use statesman.Configuration.{all_active}
use statesman.Select.{or_else}
use statesman.Status.{ActorAddress, child_address}
use statesman.Engine.{AppliedEffect, send, Microstep}
use statesman.Machine.{
  delivered, started_child, cancelled_child, RunningChild, Spawned, event, Config, Machine, emit,
  enqueue, has_room,
}

abbrev pub has_string : String → List String → Bool
has_string k xs = any (λ x. str_eq x k) xs

abbrev pub add_string : String → List String → List String
add_string k xs = if has_string k xs then xs else xs ++ k ∷ []

-- The keys of the map `desired`: the invokes of the active nodes.
unfoldable pub add_invokes : List Invoke → List String → List String
add_invokes [] ids = ids
add_invokes (iv ∷ ivs) ids = add_invokes ivs (add_string iv.id ids)

unfoldable pub desired_from : Heap → List Addr → List String → List String
unfolding add_invokes
desired_from h [] ids = ids
desired_from h (n ∷ ns) ids = desired_from h ns (add_invokes (node h n).invokes ids)

-- `m.invokeSpawns[id]++`
unfoldable pub increment : String → List (String × ℕ) → List (String × ℕ)
increment k [] = (k, 1) ∷ []
increment k ((j, n) ∷ rest) = if str_eq j k then (j, suc n) ∷ rest else (j, n) ∷ increment k rest

-- `restartsSnapshot`: the spawns beyond the first.
unfoldable pub restarts : List (String × ℕ) → List (String × ℕ)
restarts [] = []
restarts ((id, n) ∷ rest) =
    let others = restarts rest in if leb n 1 then others else (id, n - 1) ∷ others

unfoldable pub child_by_id : String → List RunningChild → Option RunningChild
child_by_id id = find (λ ch. str_eq ch.id id)

unfoldable pub child_by_address : ActorAddress → List RunningChild → Option RunningChild
child_by_address addr = find (λ ch. str_eq ch.address addr)

-- The child that a command is for: by its invoke id, else by its address.
unfoldable pub target_child : ActorAddress → List RunningChild → Option RunningChild
unfolding child_by_id child_by_address
target_child target children =
    or_else (child_by_id target children) (child_by_address target children)

module _ {Ctx Evt Cmd : Type 0} (config : Config Ctx Evt Cmd) where
  -- The loop that stops the children whose state is no longer active.
  unfoldable pub stop_children :
      List String → List RunningChild → Machine Ctx Evt Cmd → Machine Ctx Evt Cmd
  stop_children desired [] m = record m { children = [] }
  stop_children desired (ch ∷ chs) m =
      let kept = has_string ch.id desired in
      let rest =
        stop_children desired chs (if kept then m else emit config (cancelled_child ch.id) m) in
      if kept then record rest { children = ch ∷ rest.children } else rest

  -- `emit`, called by a runner before it returns. The actor itself runs this call and does not
  -- receive, so that an event that finds no room holds it up for ever: `none`.
  unfoldable pub emit_all : List Evt → Machine Ctx Evt Cmd → Option (Machine Ctx Evt Cmd)
  emit_all [] m = some m
  emit_all (e ∷ es) m =
      let rest = emit_all es (enqueue config (event e (config.hooks.event_type e)) m) in
      if has_room config false m then rest else none

  -- The spawn of one invoke that has a runner and no child.
  unfoldable pub spawn_child :
      String
      → (Ctx → ActorAddress → Spawned Evt)
      → Machine Ctx Evt Cmd
      → Option (Machine Ctx Evt Cmd)
  unfolding emit_all increment child_address
  spawn_child id runner m = do
    let addr = child_address m.addr id
    let spawned = runner m.eng.ctx addr
    m' ← emit_all spawned.emitted (emit config (started_child id addr) m)
    some (record m' {
      children =
          m'.children ++ record { id = id; address = addr; sendable = spawned.sendable } ∷ [];
      invoke_spawns = increment id m'.invoke_spawns;
    })

  unfoldable pub start_child : String → Machine Ctx Evt Cmd → Option (Machine Ctx Evt Cmd)
  unfolding spawn_child child_by_id
  start_child id m = elim (child_by_id id m.children) [
    | some ch ↦ some m
    | none ↦ elim (config.runners id) [ none ↦ some m | some runner ↦ spawn_child id runner m ]
  ]

  unfoldable pub start_children : List String → Machine Ctx Evt Cmd → Option (Machine Ctx Evt Cmd)
  unfolding start_child
  start_children [] m = some m
  start_children (id ∷ ids) m = do m' ← start_child id m; start_children ids m'

  abbrev pub desired_of : Machine Ctx Evt Cmd → List String
  desired_of m = let h = config.definition.heap in desired_from h (all_active h m.eng.cfg) []

  -- `none` where a runner's event holds the actor up.
  unfoldable pub reconcile_invokes : Machine Ctx Evt Cmd → Option (Machine Ctx Evt Cmd)
  unfolding stop_children start_children desired_from
  reconcile_invokes m =
      let desired = desired_of m in start_children desired (stop_children desired m.children m)

  unfoldable pub deliver : ActorAddress → Cmd → Machine Ctx Evt Cmd → Machine Ctx Evt Cmd
  unfolding target_child
  deliver target cmd m = elim (target_child target m.children) [
    | none ↦ m
    | some ch ↦ if ch.sendable then emit config (delivered ch.id cmd) m else m
  ]

  unfoldable pub drain_effects :
      List (AppliedEffect Ctx Cmd) → Machine Ctx Evt Cmd → Machine Ctx Evt Cmd
  unfolding deliver
  drain_effects [] m = m
  drain_effects (send target cmd ∷ effs) m = drain_effects effs (deliver target cmd m)
  drain_effects (_ ∷ effs) m = drain_effects effs m

  unfoldable pub drain_outbox : Microstep Ctx Cmd → Machine Ctx Evt Cmd → Machine Ctx Evt Cmd
  unfolding drain_effects
  drain_outbox ms m = drain_effects ms.effects m
