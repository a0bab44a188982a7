-- ===== src/Examples/Plain.antt =====
-- A chart without history states, a test for such charts, and the theorem on legal configurations
-- applied to it.
use statesman.Base.{
  ◌≡◌, refl, ℕ, ◌<◌, Bool, true, false, String, Option, none, some, List, [], ◌∷◌, ◌==◌, ◌&&◌, ◌||◌,
  mem, length, ltb, all, All, ltb_iff, ==_iff, &&_iff, ||_iff, inl, inr, ◌⊎◌, arith,
}
use statesman.Definition.{Addr, Heap, StateKind, Transition, Definition, node, is_empty}
use statesman.Definition.Ancestors.{IsTree}
use statesman.Domain.{is_compound}
use statesman.Entry.{is_parallel}
use statesman.Select.{node_evented_transitions}
use statesman.Select.Hears.{Hears}
use statesman.Engine.{Engine, Microstep, new_engine, guard_pass}
use statesman.Engine.Apply.{start, commit}
use statesman.Engine.Step.{step, offer}
use statesman.Legality.{IsChild, IsPlain, IsEdge, IsLegal}
use statesman.Legality.Selected.{HasEdges}
use statesman.Legality.Runs.{Reached, started, offered, stepped, committed, Reached-IsLegal}
use statesman.Legality.Steps.{cfg_after, Reached-GoesOn, GoesOn}
use statesman.Examples.Charts.{
  up_to, up_to_holds, plain, plain_iff, well_laid, well_laid-IsTree, fits_at, edge, state, chart,
}
use statesman.Examples.Engines.{counting, no_microstep}

abbrev default_fits : Heap → Addr → StateKind → Option Addr → Bool
default_fits h n StateKind.compound none = false
default_fits h n StateKind.compound (some c) = mem c (node h n).children
default_fits h n _ none = true
default_fits h n _ (some c) = mem c (node h n).children

abbrev holds_children : StateKind → Bool
holds_children k = is_compound k || is_parallel k

abbrev target_fits : Heap → Addr → List Addr → Bool
target_fits h n [] = true
target_fits h n (x ∷ []) = ltb x (length h) && ltb 0 x && ltb 0 n
target_fits h n (x ∷ y ∷ xs) = false

abbrev edge_fits : Heap → Addr → Transition → Bool
edge_fits h n t = (t.source == n) && target_fits h n t.targets

unfoldable plain_at : Heap → Addr → Bool
plain_at h n =
    plain (node h n).kind
    && (is_empty (node h n).children || holds_children (node h n).kind)
    && default_fits h n (node h n).kind (node h n).initial
    && all (edge_fits h n) (node_evented_transitions (node h n))
    && all (edge_fits h n) (node h n).transitions

unfoldable passes_all : Heap → Bool
unfolding plain_at
passes_all h = up_to (length h) (plain_at h)

five :
    (a b c d e : Bool)
    → (a && b && c && d && e) ≡ true
    → (a ≡ true) × (b ≡ true) × (c ≡ true) × (d ≡ true) × (e ≡ true)
five a b c d e f = ground arith

all-All {ℓ} :
    {A : Type ℓ} (p : A → Bool) (P : A → Type 0) (xs : List A)
    → ((x : A) → p x ≡ true → P x)
    → all p xs ≡ true
    → All P xs
all-All p P [] f e = tt
all-All p P (x ∷ xs) f e =
    (let (here, later) = (&&_iff (p x) (all p xs)).0 e in (f x here, all-All p P xs f later))

module _ (h : Heap) (tree : IsTree h) (checked : passes_all h ≡ true) where
  plain_parts :
      (n : Addr)
      → n < length h
      → (plain (node h n).kind ≡ true)
        × ((is_empty (node h n).children || holds_children (node h n).kind) ≡ true)
        × (default_fits h n (node h n).kind (node h n).initial ≡ true)
        × (all (edge_fits h n) (node_evented_transitions (node h n)) ≡ true)
        × (all (edge_fits h n) (node h n).transitions ≡ true)
  unfolding passes_all plain_at
  plain_parts n l = five _ _ _ _ _ (up_to_holds (length h) (plain_at h) checked n l)

  kind_holds :
      (k : StateKind)
      → holds_children k ≡ true
      → (k ≡ StateKind.compound) ⊎ (k ≡ StateKind.parallel)
  kind_holds StateKind.compound e = inl refl
  kind_holds StateKind.parallel e = inr refl
  kind_holds StateKind.atomic e = cc
  kind_holds StateKind.final e = cc
  kind_holds StateKind.history e = cc

  childless : (cs : List Addr) (c : Addr) → is_empty cs ≡ true → mem c cs ≡ true → ⊥
  childless [] c e m = cc
  childless (x ∷ xs) c e m = cc

  default-IsChild :
      (n : Addr) (o : Option Addr)
      → default_fits h n StateKind.compound o ≡ true
      → (c : Addr) × (o ≡ some c) × IsChild h n c
  default-IsChild n none e = cc
  default-IsChild n (some c) e = (c, refl, e)

  initial_fits :
      (n c : Addr) (k : StateKind) (o : Option Addr)
      → default_fits h n k o ≡ true
      → o ≡ some c
      → IsChild h n c
  initial_fits n c k none e f = cc
  initial_fits n c StateKind.compound (some d) e f = (let same : d ≡ c = cc in rw (← same) e)
  initial_fits n c StateKind.parallel (some d) e f = (let same : d ≡ c = cc in rw (← same) e)
  initial_fits n c StateKind.atomic (some d) e f = (let same : d ≡ c = cc in rw (← same) e)
  initial_fits n c StateKind.final (some d) e f = (let same : d ≡ c = cc in rw (← same) e)
  initial_fits n c StateKind.history (some d) e f = (let same : d ≡ c = cc in rw (← same) e)

  holder_of :
      (n c : Addr)
      → n < length h
      → IsChild h n c
      → ((node h n).kind ≡ StateKind.compound) ⊎ ((node h n).kind ≡ StateKind.parallel)
  holder_of n c l m = elim ((||_iff _ _).0 (plain_parts n l).1) [
    | inl empty ↦ absurd (childless (node h n).children c empty m)
    | inr held ↦ kind_holds (node h n).kind held
  ]

  passes_all-IsPlain : 0 < length h → (node h 0).kind ≡ StateKind.compound → IsPlain h
  passes_all-IsPlain pos root = record {
    tree = tree;
    no_history = λ n l. plain_iff (node h n).kind (plain_parts n l).0;
    holder = holder_of;
    default = λ n l is. default-IsChild n (node h n).initial (rw is at (plain_parts n l).2);
    initial_child =
        λ n c l e. initial_fits n c (node h n).kind (node h n).initial (plain_parts n l).2 e;
    root_inside = pos;
    root_kind = root;
  }

  target_one :
      (n : Addr) (xs : List Addr)
      → target_fits h n xs ≡ true
      → (xs ≡ []) ⊎ ((x : Addr) × (xs ≡ x ∷ []) × (x < length h) × (0 < x) × (0 < n))
  target_one n [] e = inl refl
  target_one n (x ∷ []) e =
      inr (x, refl, ground (arith, ltb_iff x (length h)), ground arith, ground arith)
  target_one n (x ∷ y ∷ xs) e = cc

  edge_fits-IsEdge : (n : Addr) (t : Transition) → edge_fits h n t ≡ true → IsEdge h n t
  edge_fits-IsEdge n t e =
      let (source, target) = (&&_iff (t.source == n) (target_fits h n t.targets)).0 e in
      record {
        source_eq = (==_iff t.source n).0 source;
        target_one = target_one n t.targets target;
      }

  passes_all-HasEdges : HasEdges h
  passes_all-HasEdges = record {
    evented =
        λ n l. all-All (edge_fits h n) (IsEdge h n) _ (edge_fits-IsEdge n) (plain_parts n l).3;
    direct = λ n l. all-All (edge_fits h n) (IsEdge h n) _ (edge_fits-IsEdge n) (plain_parts n l).4;
  }

-- A root with `off` and the parallel state `on`, whose regions are `lamp` and `fan`.
abbrev desk : Heap
desk =
    state 0 "desk" StateKind.compound none (1 ∷ 2 ∷ []) (some 1) []
    ∷ state 1 "off" StateKind.atomic (some 0) [] none (edge 0 1 "on" (2 ∷ []) ∷ [])
    ∷ state 2 "on" StateKind.parallel (some 0) (3 ∷ 6 ∷ []) none (edge 1 2 "off" (1 ∷ []) ∷ [])
    ∷ state 3 "lamp" StateKind.compound (some 2) (4 ∷ 5 ∷ []) (some 4) []
    ∷ state 4 "dim" StateKind.atomic (some 3) [] none (edge 2 4 "turn" (5 ∷ []) ∷ [])
    ∷ state 5 "bright" StateKind.atomic (some 3) [] none (edge 3 5 "turn" (4 ∷ []) ∷ [])
    ∷ state 6 "fan" StateKind.compound (some 2) (7 ∷ 8 ∷ []) (some 7) []
    ∷ state 7 "slow" StateKind.atomic (some 6) [] none (edge 4 7 "turn" (8 ∷ []) ∷ [])
    ∷ state 8 "fast" StateKind.atomic (some 6) [] none []
    ∷ []

desk-IsTree : IsTree desk
unfolding well_laid fits_at node
desk-IsTree = well_laid-IsTree desk refl

desk-IsPlain : IsPlain desk
unfolding passes_all plain_at node node_evented_transitions
desk-IsPlain = passes_all-IsPlain desk desk-IsTree refl (omega arith) refl

desk-HasEdges : HasEdges desk
unfolding passes_all plain_at node node_evented_transitions
desk-HasEdges = passes_all-HasEdges desk desk-IsTree refl

abbrev desk_chart : Definition
desk_chart = chart "desk" desk

abbrev fresh : Engine ℕ String
fresh = new_engine counting 0 5

abbrev first_or :
    Option (Engine ℕ String × Microstep ℕ String) → Engine ℕ String × Microstep ℕ String
first_or none = (fresh, no_microstep)
first_or (some r) = r

abbrev first : Engine ℕ String × Microstep ℕ String
first = first_or (start counting desk_chart fresh)

first_eq : start counting desk_chart fresh ≡ some first
unfolding start node statesman.Entry.add_descendant_states_to_enter
    statesman.Definition.proper_ancestors
first_eq = refl

-- The engine after a result of `step`, committed where a microstep is staged.
abbrev after_step :
    Engine ℕ String → Option (Engine ℕ String × Option (Microstep ℕ String)) → Engine ℕ String
after_step e none = e
after_step e (some (e', none)) = e'
after_step e (some (e', some ms)) = commit counting e' ms

abbrev handle : Engine ℕ String → String → Engine ℕ String
handle e evt = after_step (offer counting e evt) (step counting desk_chart (offer counting e evt))

after_step-Reached :
    (e : Engine ℕ String)
    → Reached counting desk_chart e
    → (o : Option (Engine ℕ String × Option (Microstep ℕ String))) → step counting desk_chart e ≡ o
    → Reached counting desk_chart (after_step e o)
after_step-Reached e r none eq = r
after_step-Reached e r (some (e', none)) eq = stepped none r eq
after_step-Reached e r (some (e', some ms)) eq = committed ms r eq

handle-Reached :
    (e : Engine ℕ String) (evt : String)
    → Reached counting desk_chart e
    → Reached counting desk_chart (handle e evt)
handle-Reached e evt r = after_step-Reached (offer counting e evt) (offered evt r) _ refl

abbrev lit : Engine ℕ String
lit = handle (handle (commit counting first.0 first.1) "on") "turn"

Reached-IsLegal_example : IsLegal desk lit.cfg
Reached-IsLegal_example = Reached-IsLegal counting desk_chart desk-IsPlain refl desk-HasEdges (
    handle-Reached (handle (commit counting first.0 first.1) "on") "turn"
      (handle-Reached (commit counting first.0 first.1) "on" (started 0 5 first.1 first_eq)))

-- The active state `on` leads to `off`.
lit-Hears : Hears desk lit.cfg "off" (guard_pass counting lit "off")
unfolding step start commit offer node statesman.Select.select_eventless_transitions
    statesman.Configuration.atomic statesman.Configuration.all_active
    statesman.Configuration.by_doc_order statesman.Definition.is_atomic
    statesman.Definition.eventless statesman.Engine.guard_pass
    statesman.Entry.add_descendant_states_to_enter statesman.Definition.proper_ancestors
    statesman.Domain.get_transition_domain statesman.Definition.internal statesman.Domain.find_lcca
    statesman.Definition.is_descendant statesman.Configuration.add new_engine
    statesman.Select.select_transitions statesman.Configuration.by_reverse_doc_order
    statesman.Domain.exit_set_of statesman.Configuration.remove statesman.Select.intersects
    node_evented_transitions
lit-Hears = record {
  leaf = 5;
  active = refl;
  is_leaf = refl;
  owner = 2;
  on_chain = refl;
  edge = edge 1 2 "off" (1 ∷ []);
  before = [];
  after = [];
  split = refl;
  fires = inl (refl, refl, refl);
}

Reached-GoesOn_example :
    (e' : Engine ℕ String) × (r : Option (Microstep ℕ String)) × (step counting desk_chart
        (offer counting lit "off")
      ≡ some (e', r))
    × IsLegal desk (cfg_after e' r)
    × GoesOn lit e' r
Reached-GoesOn_example =
    Reached-GoesOn counting desk_chart desk-IsPlain refl desk-HasEdges
      (handle-Reached (handle (commit counting first.0 first.1) "on") "turn"
        (handle-Reached (commit counting first.0 first.1) "on" (started 0 5 first.1 first_eq)))
      "off" lit-Hears

-- Both regions have taken their transition.
lit-cfg : lit.cfg ≡ 8 ∷ 5 ∷ 6 ∷ 3 ∷ 2 ∷ 0 ∷ []
unfolding step start commit offer node statesman.Select.select_eventless_transitions
    statesman.Configuration.atomic statesman.Configuration.all_active
    statesman.Configuration.by_doc_order statesman.Definition.is_atomic
    statesman.Definition.eventless statesman.Engine.guard_pass
    statesman.Entry.add_descendant_states_to_enter statesman.Definition.proper_ancestors
    statesman.Domain.get_transition_domain statesman.Definition.internal statesman.Domain.find_lcca
    statesman.Definition.is_descendant statesman.Configuration.add new_engine
    statesman.Select.select_transitions statesman.Configuration.by_reverse_doc_order
    statesman.Domain.exit_set_of statesman.Configuration.remove statesman.Select.intersects
lit-cfg = refl
