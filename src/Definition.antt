-- ===== src/Definition.antt =====
-- definition.go: the machine's tree of state nodes, its transitions, and the index by state id.
--
-- A pointer is an address, a place in the list `heap` of nodes. The address of a transition is its
-- field `addr`, as the code keeps sets of `*Transition`. A nil slice is `[]`: the code builds these
-- slices by `append` and literals only, and tests them by `len` or against nil, which agree there.
-- A `map[StateID]V` is an association list, the newest entry first.
pub mod Ancestors
use statesman.Base.{
  ℕ, zero, suc, String, Bool, true, false, Option, none, some, List, [], ◌∷◌, ◌==◌, str_eq, ◌&&◌,
  ◌||◌, if◌then◌else◌, get_or, length, not,
}
use statesman.Json.{Fields}

abbrev pub Addr : Type 0
Addr = ℕ

-- `type StateID string`
abbrev pub StateId : Type 0
StateId = String

pub data StateKind : Type 0 where
  atomic compound parallel final history : StateKind

-- The default branch "unknown" has no value to take it.
pub string_of_kind : StateKind → String
string_of_kind StateKind.atomic = "atomic"
string_of_kind StateKind.compound = "compound"
string_of_kind StateKind.parallel = "parallel"
string_of_kind StateKind.final = "final"
string_of_kind StateKind.history = "history"

pub data HistoryKind : Type 0 where
  shallow deep : HistoryKind

-- A callsite is an `int`; the builder numbers them from 0, and marks one not yet numbered by -1,
-- which is `none` here.
pub record ActionRef : Type 0 where
  pub typ : String
  pub params : Fields
  pub callsite : Option ℕ

pub record GuardRef : Type 0 where
  pub typ : String
  pub params : Fields
  pub callsite : Option ℕ

pub record Delay : Type 0 where
  pub millis : ℕ
  pub symbol : String

pub record Transition : Type 0 where
  pub addr : ℕ
  pub source : Addr
  pub event : String
  pub guard : Option GuardRef
  pub targets : List Addr
  pub actions : List ActionRef
  pub doc_order : ℕ
  pub is_after : Bool
  pub delay : Delay

abbrev pub is_empty {ℓ} : {A : Type ℓ} → List A → Bool
is_empty [] = true
is_empty (x ∷ xs) = false

unfoldable pub eventless : Transition → Bool
eventless t = str_eq t.event "" && not t.is_after

unfoldable pub internal : Transition → Bool
internal t = is_empty t.targets

pub record Invoke : Type 0 where
  pub id : String
  pub src : String
  pub on_done : List Transition
  pub on_error : List Transition

pub record StateNode : Type 0 where
  pub id : StateId
  pub key : String
  pub kind : StateKind
  pub parent : Option Addr
  pub children : List Addr
  pub initial : Option Addr
  pub history_kind : HistoryKind
  pub history_to : List Addr
  pub entry : List ActionRef
  pub exit : List ActionRef
  pub invokes : List Invoke
  pub transitions : List Transition
  pub doc_order : ℕ

abbrev pub Heap : Type 0
Heap = List StateNode

-- `&StateNode{}`: every field at its zero value. It stands for what no address holds; a heap that
-- is `IsTree` below has no such address in it.
abbrev pub blank : StateNode
blank = record {
  id = "";
  key = "";
  kind = StateKind.atomic;
  parent = none;
  children = [];
  initial = none;
  history_kind = HistoryKind.shallow;
  history_to = [];
  entry = [];
  exit = [];
  invokes = [];
  transitions = [];
  doc_order = 0;
}

-- `*n`
unfoldable pub node : Heap → Addr → StateNode
node h n = get_or h n blank

abbrev pub is_atomic_kind : StateKind → Bool
is_atomic_kind StateKind.atomic = true
is_atomic_kind StateKind.final = true
is_atomic_kind _ = false

unfoldable pub is_atomic : Heap → Addr → Bool
is_atomic h n = is_atomic_kind (node h n).kind

-- The loop `for p := ...; p != nil; p = p.Parent`, collecting `p`. A chain of parents in a tree is
-- shorter than the heap, whose length is the fuel of the callers (`Ancestors.climb_enough`).
unfoldable pub climb : Heap → ℕ → Option Addr → List Addr
climb h zero p = []
climb h (suc fuel) none = []
climb h (suc fuel) (some p) = p ∷ climb h fuel (node h p).parent

-- Innermost first, up to and including the root.
unfoldable pub proper_ancestors : Heap → Addr → List Addr
unfolding climb
proper_ancestors h n = climb h (length h) (node h n).parent

-- The same loop, stopped at `anc`.
unfoldable pub climbs_to : Heap → ℕ → Option Addr → Addr → Bool
climbs_to h zero p anc = false
climbs_to h (suc fuel) none anc = false
climbs_to h (suc fuel) (some p) anc = (anc == p) || climbs_to h fuel (node h p).parent anc

unfoldable pub is_descendant : Heap → Addr → Option Addr → Bool
unfolding climbs_to
is_descendant h n none = false
is_descendant h n (some anc) = climbs_to h (length h) (node h n).parent anc

pub record Definition : Type 0 where
  pub id : String
  pub root : Addr
  pub heap : Heap
  pub nodes : List (StateId × Addr)
  pub action_count : ℕ
  pub guard_count : ℕ

-- A read of a map with `StateId` keys.
unfoldable pub find_id {ℓ} : {V : Type ℓ} → StateId → List (StateId × V) → Option V
find_id k [] = none
find_id k ((j, v) ∷ m) = if str_eq j k then some v else find_id k m

unfoldable pub lookup : Definition → StateId → Option Addr
unfolding find_id
lookup d id = find_id id d.nodes

-- The closure `index`: the node, then its children in order, each write in front of the earlier
-- ones. A child comes after its parent in the heap, so the heap's length bounds the recursion.
abbrev fold_children {ℓ} : {S : Type ℓ} → (Addr → S → S) → List Addr → S → S
fold_children f [] s = s
fold_children f (c ∷ cs) s = fold_children f cs (f c s)

unfoldable pub index : Heap → ℕ → Addr → List (StateId × Addr) → List (StateId × Addr)
index h zero n m = m
index h (suc fuel) n m = fold_children (index h fuel) (node h n).children (((node h n).id, n) ∷ m)

unfoldable pub new_definition : String → Heap → Addr → ℕ → ℕ → Definition
unfolding index
new_definition id h root action_count guard_count = record {
  id = id;
  root = root;
  heap = h;
  nodes = index h (length h) root [];
  action_count = action_count;
  guard_count = guard_count;
}
