-- ===== src/Select.antt =====
-- The selection of transitions (transition.go, `matchAtNode` to `intersects`).
pub mod Conflicts
pub mod Hears
pub mod Match
use statesman.Base.{
  ℕ, String, Bool, Option, none, some, List, [], ◌∷◌, ◌++◌, ◌&&◌, not, ◌==◌, str_eq, if◌then◌else◌,
  find, any, keep, mem, length, ltb, leb, sort_by,
}
use statesman.Definition.{
  Addr, Heap, StateNode, Invoke, Transition, node, eventless, proper_ancestors, is_descendant,
}
use statesman.Configuration.{Configuration, atomic}
use statesman.Domain.{exit_set_of}

-- `guardPredicate`
abbrev pub GuardPredicate : Type 0
GuardPredicate = Transition → Bool

abbrev pub invoke_edges : List Invoke → List Transition
invoke_edges [] = []
invoke_edges (iv ∷ ivs) = iv.on_done ++ (iv.on_error ++ invoke_edges ivs)

unfoldable pub node_evented_transitions : StateNode → List Transition
node_evented_transitions s = elim s.invokes [
  | [] ↦ s.transitions
  | iv ∷ ivs ↦ s.transitions ++ invoke_edges (iv ∷ ivs)
]

-- The tests of the two loops of `matchAtNode`.
abbrev pub fires_on : String → GuardPredicate → Transition → Bool
fires_on event pass t = not (eventless t) && str_eq t.event event && pass t

abbrev pub or_else {ℓ} : {A : Type ℓ} → Option A → Option A → Option A
or_else none y = y
or_else (some x) y = some x

unfoldable pub match_at_node : StateNode → String → GuardPredicate → Option Transition
unfolding node_evented_transitions
match_at_node s event pass =
    or_else (find (fires_on event pass) (node_evented_transitions s))
      (find (fires_on "*" pass) (node_evented_transitions s))

-- The loop over a node and its ancestors, to the first that has a transition.
unfoldable pub first_match : (Addr → Option Transition) → List Addr → Option Transition
first_match at [] = none
first_match at (s ∷ ss) = or_else (at s) (first_match at ss)

-- The loop over the atomic states. `seen` holds the pointers of the transitions in `enabled`.
unfoldable pub collect_enabled :
    Heap → (Addr → Option Transition) → List Addr → List ℕ → List Transition → List Transition
collect_enabled h at [] seen enabled = enabled
collect_enabled h at (st ∷ sts) seen enabled =
    let same = collect_enabled h at sts seen enabled in
    let more = λ (t : Transition). collect_enabled h at sts (t.addr ∷ seen) (enabled ++ t ∷ []) in
    elim (first_match at (st ∷ proper_ancestors h st)) [
      | none ↦ same
      | some t ↦ if mem t.addr seen then same else more t
    ]

-- The two maps are swapped so that the smaller one is walked.
unfoldable pub intersects : List Addr → List Addr → Bool
intersects a b = if ltb (length b) (length a) then any (λ s. mem s a) b else any (λ s. mem s b) a

-- The order of `sort.SliceStable`: by the source's document order, then by the transition's own.
abbrev pub earlier : Heap → Transition → Transition → Bool
earlier h t u =
    let i = (node h t.source).doc_order in
    let j = (node h u.source).doc_order in if i == j then leb t.doc_order u.doc_order else ltb i j

-- The loop over `filtered` for one `t1` with exit set `es1`: the pointers to remove, or `none`
-- where `t1` is preempted.
unfoldable pub conflicts :
    Heap → Configuration → Transition → List Addr → List Transition → List ℕ → Option (List ℕ)
conflicts h cfg t1 es1 [] to_remove = some to_remove
conflicts h cfg t1 es1 (t2 ∷ rest) to_remove =
    let skip = conflicts h cfg t1 es1 rest to_remove in
    let drop = conflicts h cfg t1 es1 rest (t2.addr ∷ to_remove) in
    if intersects es1 (exit_set_of h cfg t2)
    then (if is_descendant h t1.source (some t2.source) then drop else none)
    else skip

-- One round of the outer loop.
unfoldable pub admit : Heap → Configuration → Transition → List Transition → List Transition
unfolding conflicts
admit h cfg t1 filtered = elim (conflicts h cfg t1 (exit_set_of h cfg t1) filtered []) [
  | none ↦ filtered
  | some to_remove ↦ keep (λ t2. not (mem t2.addr to_remove)) filtered ++ t1 ∷ []
]

unfoldable pub admit_all :
    Heap → Configuration → List Transition → List Transition → List Transition
unfolding admit
admit_all h cfg [] filtered = filtered
admit_all h cfg (t1 ∷ enabled) filtered = admit_all h cfg enabled (admit h cfg t1 filtered)

unfoldable pub remove_conflicting_transitions :
    Heap → Configuration → List Transition → List Transition
unfolding admit_all
remove_conflicting_transitions h cfg enabled = admit_all h cfg (sort_by (earlier h) enabled) []

-- The parameter `pass` of the code, which it does not read, is left out.
unfoldable pub select_by : Heap → Configuration → (Addr → Option Transition) → List Transition
unfolding remove_conflicting_transitions collect_enabled first_match
select_by h cfg at =
    remove_conflicting_transitions h cfg (collect_enabled h at (atomic h cfg) [] [])

unfoldable pub select_transitions : Heap → Configuration → String → GuardPredicate → List Transition
unfolding select_by match_at_node
select_transitions h cfg event pass = select_by h cfg (λ s. match_at_node (node h s) event pass)

unfoldable pub select_eventless_transitions :
    Heap → Configuration → GuardPredicate → List Transition
unfolding select_by
select_eventless_transitions h cfg pass =
    select_by h cfg (λ s. find (λ t. eventless t && pass t) (node h s).transitions)
