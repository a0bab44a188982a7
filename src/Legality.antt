-- ===== src/Legality.antt =====
-- Legal configurations: what the engine (transition.go, microstep.go) has to keep, stated without
-- its algorithms. The children follow the entry set down and up the tree, and a whole microstep.
pub mod Subtrees
pub mod Sets
pub mod Regions
pub mod Descend
pub mod Climb
pub mod Arrows
pub mod Zones
pub mod Leaving
pub mod Changes
pub mod Selected
pub mod Runs
pub mod Steps
use statesman.Base.{◌≡◌, ◌≢◌, ℕ, ◌<◌, true, false, Option, some, List, [], ◌∷◌, ◌⊎◌, mem, length}
use statesman.Definition.{Addr, Heap, StateKind, Transition, node}
use statesman.Definition.Ancestors.{IsTree, Below}
use statesman.Configuration.Order.{Fits}

-- `n` is `a`, or a descendant of it.
abbrev pub Within : Heap → Addr → Addr → Type 0
Within h a n = (n ≡ a) ⊎ Below h n a

abbrev pub IsChild : Heap → Addr → Addr → Type 0
IsChild h p c = mem c (node h p).children ≡ true

-- Exactly one child is in the set.
pub record OneChild (h : Heap) (n : Addr) (e : List Addr) : Type 0 where
  pub chosen : Addr
  pub is_child : IsChild h n chosen
  pub present : mem chosen e ≡ true
  pub only : (c : Addr) → IsChild h n c → mem c e ≡ true → c ≡ chosen

abbrev pub AllChildren : Heap → Addr → List Addr → Type 0
AllChildren h n e = (c : Addr) → IsChild h n c → mem c e ≡ true

-- What the kind of a state in the set asks of its children.
abbrev pub LocalAs : Heap → StateKind → Addr → List Addr → Type 0
LocalAs h StateKind.compound n e = OneChild h n e
LocalAs h StateKind.parallel n e = AllChildren h n e
LocalAs h _ n e = Unit

-- The subtree of `a` is active, and legally so.
pub record IsFull (h : Heap) (a : Addr) (e : List Addr) : Type 0 where
  pub here : mem a e ≡ true
  pub local : (n : Addr) → Within h a n → mem n e ≡ true → LocalAs h (node h n).kind n e
  pub closed :
      (n p : Addr) → Below h n a → (node h n).parent ≡ some p → mem n e ≡ true → mem p e ≡ true

-- A legal configuration: states of the chart, with the root; with each state but the root its
-- parent; with a compound state exactly one of its children, and with a parallel state all.
abbrev pub IsLegal : Heap → List Addr → Type 0
IsLegal h cfg = Fits h cfg × IsFull h 0 cfg

-- The charts that the theorems are about: no history states, every state with children compound or
-- parallel, a compound state with a default child, and a compound root.
pub record IsPlain (h : Heap) : Type 0 where
  pub tree : IsTree h
  pub no_history : (n : Addr) → n < length h → (node h n).kind ≢ StateKind.history
  pub holder :
      (n c : Addr)
      → n < length h
      → IsChild h n c
      → ((node h n).kind ≡ StateKind.compound) ⊎ ((node h n).kind ≡ StateKind.parallel)
  pub default :
      (n : Addr)
      → n < length h
      → (node h n).kind ≡ StateKind.compound
      → (c : Addr) × ((node h n).initial ≡ some c) × IsChild h n c
  pub initial_child : (n c : Addr) → n < length h → (node h n).initial ≡ some c → IsChild h n c
  pub root_inside : 0 < length h
  pub root_kind : (node h 0).kind ≡ StateKind.compound

-- A transition of the state `n`: it is internal, or it leads from below the root to one state
-- below the root.
pub record IsEdge (h : Heap) (n : Addr) (t : Transition) : Type 0 where
  pub source_eq : t.source ≡ n
  pub target_one :
      (t.targets ≡ []) ⊎ ((x : Addr) × (t.targets ≡ x ∷ []) × (x < length h) × (0 < x) × (0 < n))
