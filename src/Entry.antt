-- ===== src/Entry.antt =====
-- The entry set (transition.go, `computeEntrySet` to `orderedEntry`).
pub mod Total
use statesman.Base.{
  ℕ, zero, suc, ◌*◌, Bool, true, false, Option, none, some, List, [], ◌∷◌, ◌||◌, ◌==◌,
  if◌then◌else◌, any, mem, insert, length, ◌>>=◌,
}
use statesman.Definition.{
  Addr, Heap, StateId, StateKind, Transition, node, find_id, proper_ancestors,
}
use statesman.Configuration.{by_doc_order}
use statesman.Domain.{get_transition_domain}

-- `map[StateID][]*StateNode`, the newest entry first.
abbrev pub History : Type 0
History = List (StateId × List Addr)

-- The two maps that the code fills.
pub record EntrySet : Type 0 where
  pub to_enter : List Addr
  pub default_entry : List Addr

abbrev pub no_entry : EntrySet
no_entry = record { to_enter = []; default_entry = [] }

-- `n` or a descendant of `n` is in the set. A child stands after its parent in the heap, so the
-- heap's length bounds the recursion.
unfoldable pub has_descendant_in_set : Heap → ℕ → Addr → List Addr → Bool
has_descendant_in_set h zero n set = mem n set
has_descendant_in_set h (suc fuel) n set =
    mem n set || any (λ c. has_descendant_in_set h fuel c set) (node h n).children

-- `hist[s.ID]`, or the default target where that is nil.
abbrev or_default : Option (List Addr) → List Addr → List Addr
or_default none default = default
or_default (some []) default = default
or_default (some (x ∷ xs)) default = x ∷ xs

unfoldable pub restore : Heap → History → Addr → List Addr
unfolding find_id
restore h hist s = or_default (find_id (node h s).id hist) (node h s).history_to

abbrev pub enter : Addr → EntrySet → EntrySet
enter s e = record e { to_enter = insert s e.to_enter }

abbrev pub mark_default : Addr → EntrySet → EntrySet
mark_default s e = record e { default_entry = insert s e.default_entry }

-- A call of `addDescendantStatesToEnter`, handed to what is called from it: `none` where the
-- recursion has not come back within its fuel.
abbrev pub Descend : Type 0
Descend = Addr → EntrySet → Option EntrySet

-- The regions of a parallel state that have nothing to be entered yet.
unfoldable pub add_regions : Heap → Descend → List Addr → EntrySet → Option EntrySet
unfolding has_descendant_in_set
add_regions h descend [] e = some e
add_regions h descend (child ∷ rest) e = do
  e' ← if has_descendant_in_set h (length h) child e.to_enter then some e else descend child e
  add_regions h descend rest e'

abbrev pub is_parallel : StateKind → Bool
is_parallel StateKind.parallel = true
is_parallel _ = false

-- `p == q` of a pointer and one that may be nil.
abbrev pub same : Addr → Option Addr → Bool
same n none = false
same n (some m) = n == m

-- `addAncestorStatesToEnter`, over the ancestors of its state.
unfoldable pub add_ancestors : Heap → Descend → List Addr → Option Addr → EntrySet → Option EntrySet
unfolding add_regions
add_ancestors h descend [] ancestor e = some e
add_ancestors h descend (anc ∷ chain) ancestor e =
    let entered =
      if is_parallel (node h anc).kind
      then add_regions h descend (node h anc).children (enter anc e)
      else some (enter anc e) in
    let onward = entered >>= λ e'. add_ancestors h descend chain ancestor e' in
    if same anc ancestor then some e else onward

unfoldable pub add_ancestor_states_to_enter :
    Heap → Descend → Addr → Option Addr → EntrySet → Option EntrySet
unfolding add_ancestors
add_ancestor_states_to_enter h descend s ancestor e =
    add_ancestors h descend (proper_ancestors h s) ancestor e

-- The loop over the states that a history node restores.
unfoldable pub add_restored : Heap → Descend → List Addr → Option Addr → EntrySet → Option EntrySet
unfolding add_ancestor_states_to_enter
add_restored h descend [] parent e = some e
add_restored h descend (hs ∷ rest) parent e = do
  e' ← descend hs e
  e'' ← add_ancestor_states_to_enter h descend hs parent e'
  add_restored h descend rest parent e''

-- The default child of a compound state, if there is one.
unfoldable pub add_initial : Heap → Descend → Addr → Option Addr → EntrySet → Option EntrySet
unfolding add_ancestor_states_to_enter
add_initial h descend s none e = some e
add_initial h descend s (some child) e = do
  e' ← descend child e
  add_ancestor_states_to_enter h descend child (some s) e'

-- The body of `addDescendantStatesToEnter`, by the kind of the state.
unfoldable pub descend_kind :
    Heap → History → Descend → StateKind → Addr → EntrySet → Option EntrySet
unfolding restore add_restored add_initial add_regions
descend_kind h hist descend StateKind.history s e =
    add_restored h descend (restore h hist s) (node h s).parent e
descend_kind h hist descend StateKind.compound s e =
    add_initial h descend s (node h s).initial (mark_default s (enter s e))
descend_kind h hist descend StateKind.parallel s e =
    add_regions h descend (node h s).children (enter s e)
descend_kind h hist descend StateKind.atomic s e = some (enter s e)
descend_kind h hist descend StateKind.final s e = some (enter s e)

unfoldable pub add_descendant_states_to_enter : Heap → History → ℕ → Descend
unfolding descend_kind
add_descendant_states_to_enter h hist zero s e = none
add_descendant_states_to_enter h hist (suc fuel) s e =
    descend_kind h hist (add_descendant_states_to_enter h hist fuel) (node h s).kind s e

-- A call's depth is at most two for each node, where history nodes restore what lies below their
-- parent (`Entry.Total`).
abbrev pub entry_fuel : Heap → ℕ
entry_fuel h = suc (2 * length h)

abbrev pub descend_from : Heap → History → Descend
descend_from h hist = add_descendant_states_to_enter h hist (entry_fuel h)

-- The two loops over the targets of one transition.
unfoldable pub add_targets : Descend → List Addr → EntrySet → Option EntrySet
add_targets descend [] e = some e
add_targets descend (tgt ∷ rest) e = do e' ← descend tgt e; add_targets descend rest e'

unfoldable pub add_target_ancestors :
    Heap → Descend → List Addr → Option Addr → EntrySet → Option EntrySet
unfolding add_ancestor_states_to_enter
add_target_ancestors h descend [] dom e = some e
add_target_ancestors h descend (tgt ∷ rest) dom e = do
  e' ← add_ancestor_states_to_enter h descend tgt dom e
  add_target_ancestors h descend rest dom e'

unfoldable pub collect_entries : Heap → Descend → List Transition → EntrySet → Option EntrySet
unfolding add_targets add_target_ancestors
collect_entries h descend [] e = some e
collect_entries h descend (t ∷ ts) e = do
  e' ← add_targets descend t.targets e
  e'' ← add_target_ancestors h descend t.targets (get_transition_domain h t) e'
  collect_entries h descend ts e''

unfoldable pub compute_entry_set : Heap → History → List Transition → Option EntrySet
unfolding collect_entries
compute_entry_set h hist ts = collect_entries h (descend_from h hist) ts no_entry

unfoldable pub ordered_entry : Heap → List Addr → List Addr
ordered_entry h set = by_doc_order h set
