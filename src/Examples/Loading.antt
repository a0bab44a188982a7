-- ===== src/Examples/Loading.antt =====
-- The theorems on the loader, at a node and at some delays.
use statesman.Base.{◌≡◌, refl, none, some, [], ◌∷◌, String, true, pos, ◌*◌, arith}
use statesman.Json.{end}
use statesman.Definition.{ActionRef, Transition, StateNode, StateKind, Delay}
use statesman.Snapshot.{Duration}
use statesman.Schema.{ok}
use statesman.Schema.Text.{is_all_digits, digits_value, parse_delay}
use statesman.Schema.Delays.{parse_delay-resolve_delay}
use statesman.Machine.Timers.{resolve_delay}
use statesman.Schema.Callsites.{Counts, assign_node}
use statesman.Schema.Callsites.Numbering.{
  BothNumbered, node_actions, node_guards, assign_node-BothNumbered,
}
use statesman.Examples.Charts.{state, edge}

abbrev unnumbered : ActionRef
unnumbered = record { typ = "a"; params = end; callsite = none }

abbrev guarded : Transition
guarded = record (edge 0 1 "go" (2 ∷ [])) {
  guard = some (record { typ = "g"; params = end; callsite = none });
  actions = unnumbered ∷ unnumbered ∷ [];
}

abbrev busy : StateNode
busy = record (state 1 "busy" StateKind.atomic (some 0) [] none (guarded ∷ guarded ∷ [])) {
  entry = unnumbered ∷ [];
  exit = unnumbered ∷ [];
}

abbrev counts : Counts
counts = record { action_count = 4; guard_count = 1 }

assign_node-BothNumbered_example :
    BothNumbered
      (node_actions busy)
      (node_actions (assign_node busy counts).0)
      (node_guards busy)
      (node_guards (assign_node busy counts).0)
      counts
      (assign_node busy counts).1
assign_node-BothNumbered_example = assign_node-BothNumbered busy counts

abbrev no_delays : String → Duration
no_delays name = pos 0

key_digits : is_all_digits "1500" ≡ true
unfolding is_all_digits
key_digits = refl

key_value : digits_value 0 "1500" ≡ 1500
unfolding digits_value
key_value = refl

parse_delay-resolve_delay_example :
    (d : Delay) × (parse_delay "1500" "$.after" ≡ ok d)
    × (resolve_delay no_delays d ≡ pos (digits_value 0 "1500" * 1000000))
parse_delay-resolve_delay_example =
    parse_delay-resolve_delay "1500" "$.after" no_delays key_digits (rw key_value (omega arith))
