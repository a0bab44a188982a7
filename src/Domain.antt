-- ===== src/Domain.antt =====
-- The domain and the exit set of a transition (transition.go, `findLCCA` to `computeExitSet`).
pub mod Lcca
pub mod Exits
use statesman.Base.{
  Bool, true, false, Option, none, some, List, [], ◌∷◌, ◌&&◌, ◌||◌, if◌then◌else◌, find, all, keep,
  insert_all,
}
use statesman.Definition.{
  Addr, Heap, StateKind, Transition, node, internal, proper_ancestors, is_descendant,
}
use statesman.Configuration.{Configuration, all_active, by_reverse_doc_order}

abbrev pub is_compound : StateKind → Bool
is_compound StateKind.compound = true
is_compound _ = false

abbrev pub is_nil {ℓ} : {A : Type ℓ} → Option A → Bool
is_nil none = true
is_nil (some _) = false

-- Only a compound state, or the root, is a least common compound ancestor.
unfoldable pub qualifies : Heap → Addr → Bool
qualifies h anc = is_compound (node h anc).kind || is_nil (node h anc).parent

-- The test of the loop in `findLCCA`: the ancestor qualifies, and the other states lie below it.
unfoldable pub is_common : Heap → List Addr → Addr → Bool
unfolding qualifies
is_common h rest anc = qualifies h anc && all (λ u. is_descendant h u (some anc)) rest

-- The loop over the ancestors of the first state, innermost first.
unfoldable pub find_lcca : Heap → List Addr → Option Addr
unfolding is_common
find_lcca h [] = none
find_lcca h (s ∷ rest) = find (is_common h rest) (proper_ancestors h s)

unfoldable pub get_transition_domain : Heap → Transition → Option Addr
get_transition_domain h t = if internal t then none else find_lcca h (t.source ∷ t.targets)

-- The set is the keys of the map that the code returns.
unfoldable pub exit_set_of : Heap → Configuration → Transition → List Addr
exit_set_of h cfg t =
    if internal t
    then []
    else keep (λ s. is_descendant h s (get_transition_domain h t)) (all_active h cfg)

-- The two loops that fill `set`.
unfoldable pub collect_exits : Heap → Configuration → List Transition → List Addr → List Addr
collect_exits h cfg [] set = set
collect_exits h cfg (t ∷ ts) set = collect_exits h cfg ts (insert_all (exit_set_of h cfg t) set)

unfoldable pub compute_exit_set : Heap → Configuration → List Transition → List Addr
unfolding collect_exits
compute_exit_set h cfg ts = by_reverse_doc_order h (collect_exits h cfg ts [])
