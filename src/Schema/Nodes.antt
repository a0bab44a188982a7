-- ===== src/Schema/Nodes.antt =====
-- The shells of the nodes and their document order: `buildNode`, `kindOf`, `assignDocOrder` and
-- `findChild` of schema/build.go.
use statesman.Base.{
  ℕ, zero, suc, String, Bool, true, false, not, Option, some, List, [], ◌∷◌, ◌++◌, ◌&&◌, ◌||◌,
  str_eq, str_append, if◌then◌else◌, length, find,
}
use statesman.Definition.{Addr, Heap, StateId, StateKind, StateNode, blank, node}
use statesman.Schema.{
  DtoFields, DtoState, state, DtoChildren, nil, cons, Builder, Result, ok, fail, ◌>>=◌,
  id_equals_key, unknown_type, write,
}

abbrev is_nil : DtoChildren → Bool
is_nil nil = true
is_nil (cons _ _ _) = false

unfoldable pub kind_of : DtoFields → DtoChildren → Result StateKind
kind_of dto states =
    if dto.has_type
    then (if str_eq dto.typ "parallel"
        then ok StateKind.parallel
        else if str_eq dto.typ "final"
        then ok StateKind.final
        else if str_eq dto.typ "history"
        then ok StateKind.history
        else fail (str_append dto.path ".type") unknown_type)
    else if dto.has_states && not (is_nil states)
    then ok StateKind.compound
    else ok StateKind.atomic

-- The dotted path of a node.
unfoldable pub state_id : Bool → String → String → StateId
state_id root parent_id key =
    if root
    then ""
    else if str_eq parent_id ""
    then key
    else str_append (str_append parent_id ".") key

-- `b.byKey[key] = append(b.byKey[key], n)`
unfoldable pub add_key : String → Addr → List (String × List Addr) → List (String × List Addr)
add_key k n [] = (k, n ∷ []) ∷ []
add_key k n ((j, ns) ∷ rest) =
    if str_eq j k then (j, ns ++ n ∷ []) ∷ rest else (j, ns) ∷ add_key k n rest

-- The node that `buildNode` allocates, at the next address.
abbrev pub shell : StateId → String → StateKind → Option Addr → StateNode
shell id key kind parent = record blank {
  id = id;
  key = key;
  kind = kind;
  parent = parent;
  children = [];
}

unfoldable pub allocate : DtoFields → StateNode → Builder → Builder
unfolding add_key
allocate dto n b = record b {
  heap = b.heap ++ n ∷ [];
  dtos = b.dtos ++ dto ∷ [];
  by_key = add_key n.key (length b.heap) b.by_key;
}

-- `n.Children = append(n.Children, cn)`
unfoldable pub append_child : Addr → Addr → Builder → Builder
unfolding node
append_child n c b =
    write n (record (node b.heap n) { children = (node b.heap n).children ++ c ∷ [] }) b

-- The check that opens `buildNode`.
abbrev pub id_matches : DtoFields → String → Bool → Bool
id_matches dto key root = root || not dto.has_id || str_eq dto.id key

-- The address of the node that is built, which is the next one.
unfoldable mutual
  unfolding kind_of state_id allocate append_child

  pub build_node : DtoState → String → String → Option Addr → Bool → Builder → Result Builder
  build_node (state dto states) key parent_id parent root b =
      if id_matches dto key root
      then (do
        kind ← kind_of dto states
        let id = state_id root parent_id key
        build_children states id (length b.heap) (allocate dto (shell id key kind parent) b))
      else fail (str_append dto.path ".id") id_equals_key

  pub build_children : DtoChildren → String → Addr → Builder → Result Builder
  build_children nil id n b = ok b
  build_children (cons key dto rest) id n b = do
    b' ← build_node dto key id (some n) false b
    build_children rest id n (append_child n (length b.heap) b')

-- The closure `walk`: a node gets the next number, then its children in order.
abbrev pub number : Addr → Builder → Builder
number n b = record (write n (record (node b.heap n) { doc_order = length b.ordered }) b) {
  ordered = b.ordered ++ n ∷ [];
}

abbrev pub walk_children : (Addr → Builder → Builder) → List Addr → Builder → Builder
walk_children walk [] b = b
walk_children walk (c ∷ cs) b = walk_children walk cs (walk c b)

unfoldable pub walk : ℕ → Addr → Builder → Builder
walk zero n b = b
walk (suc fuel) n b = walk_children (walk fuel) (node b.heap n).children (number n b)

unfoldable pub assign_doc_order : Addr → Builder → Builder
unfolding walk
assign_doc_order root b = walk (length b.heap) root b

unfoldable pub find_child : Heap → Addr → String → Option Addr
unfolding node
find_child h n key = find (λ c. str_eq (node h c).key key) (node h n).children
