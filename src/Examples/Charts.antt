-- ===== src/Examples/Charts.antt =====
-- Two small charts, and a test that a heap holds a tree.
use statesman.Base.{
  ◌≡◌, ◌≢◌, refl, ap, ℕ, zero, suc, ◌<◌, Bool, true, false, String, Option, none, some, List, [],
  ◌∷◌, ◌==◌, ◌&&◌, mem, length, ltb, all, ltb_iff, ==_iff, &&_iff, map, inl, inr, Bool-cases, arith,
}
use statesman.Definition.{Addr, Heap, StateKind, Transition, StateNode, Definition, blank, node}
use statesman.Json.{end}
use statesman.Definition.{is_descendant}
use statesman.Definition.Ancestors.{IsTree, Below}
use statesman.Domain.Lcca.{is_descendant_iff}
use statesman.Entry.{History, restore}
use statesman.Entry.Total.{Restorable}

abbrev points_to : Option Addr → Addr → Bool
points_to none n = false
points_to (some m) n = m == n

abbrev parent_fits : Heap → Addr → Option Addr → Bool
parent_fits h n none = n == 0
parent_fits h n (some p) = ltb p n && mem n (node h p).children

unfoldable pub fits_at : Heap → Addr → Bool
fits_at h n =
    parent_fits h n (node h n).parent
    && (node h n).doc_order == n
    && all (λ c. ltb c (length h) && points_to (node h c).parent n) (node h n).children

abbrev pub up_to : ℕ → (ℕ → Bool) → Bool
up_to zero p = true
up_to (suc k) p = p k && up_to k p

unfoldable pub well_laid : Heap → Bool
unfolding fits_at
well_laid h = up_to (length h) (fits_at h)

pub up_to_holds : (k : ℕ) (p : ℕ → Bool) → up_to k p ≡ true → (n : ℕ) → n < k → p n ≡ true
up_to_holds zero p e n l = absurd (omega arith)
up_to_holds (suc k) p e n l =
    let (here, below) = (&&_iff (p k) (up_to k p)).0 e in
    elim (Bool-cases (n == k)) [
      | inl last ↦ rw ((==_iff n k).0 last) here
      | inr other ↦ up_to_holds k p below n (ground arith)
    ]

all_holds :
    (p : Addr → Bool) (xs : List Addr) (x : Addr) → all p xs ≡ true → mem x xs ≡ true → p x ≡ true
all_holds p [] x e m = cc
all_holds p (y ∷ ys) x e m =
    let (here, later) = (&&_iff (p y) (all p ys)).0 e in
    elim (Bool-cases (x == y)) [
      | inl same ↦ rw ((==_iff x y).0 same) here
      | inr other ↦ all_holds p ys x later (ground arith)
    ]

three : (a b c : Bool) → (a && b && c) ≡ true → (a ≡ true) × (b ≡ true) × (c ≡ true)
three a b c e = ground arith

module _ (h : Heap) (checked : well_laid h ≡ true) where
  at_each : (n : Addr) → n < length h → fits_at h n ≡ true
  unfolding well_laid
  at_each n l = up_to_holds (length h) (fits_at h) checked n l

  parts :
      (n : Addr)
      → n < length h
      → (parent_fits h n (node h n).parent ≡ true)
        × (((node h n).doc_order == n) ≡ true)
        × (all (λ c. ltb c (length h) && points_to (node h c).parent n) (node h n).children ≡ true)
  unfolding fits_at
  parts n l = three _ _ _ (at_each n l)

  has_parent :
      (n p : Addr) (o : Option Addr)
      → parent_fits h n o ≡ true
      → o ≡ some p
      → (p < n) × (mem n (node h p).children ≡ true)
  has_parent n p none e f = cc
  has_parent n p (some q) e f =
      let (lt, m) = (&&_iff (ltb q n) (mem n (node h q).children)).0 e in
      let same : q ≡ p = cc in rw (← same) ((ltb_iff q n).0 lt, m)

  no_parent : (n : Addr) (o : Option Addr) → parent_fits h n o ≡ true → o ≡ none → n ≡ 0
  no_parent n none e f = (==_iff n 0).0 e
  no_parent n (some q) e f = cc

  points : (o : Option Addr) (n : Addr) → points_to o n ≡ true → o ≡ some n
  points none n e = cc
  points (some m) n e = ap (λ x. some x) ((==_iff m n).0 e)

  child_fits :
      (n c : Addr)
      → n < length h
      → mem c (node h n).children ≡ true
      → (c < length h) × ((node h c).parent ≡ some n)
  child_fits n c l m =
      let e =
        all_holds (λ x. ltb x (length h) && points_to (node h x).parent n) (node h n).children c
          (parts n l).2 m in
      let (lt, back) = (&&_iff (ltb c (length h)) (points_to (node h c).parent n)).0 e in
      ((ltb_iff c (length h)).0 lt, points (node h c).parent n back)

  pub well_laid-IsTree : IsTree h
  well_laid-IsTree = record {
    parent_lt = λ n p l e. (has_parent n p (node h n).parent (parts n l).0 e).0;
    doc_order_eq = λ n l. (==_iff (node h n).doc_order n).0 (parts n l).1;
    child_lt = λ n c l m. (child_fits n c l m).0;
    child_parent = λ n c l m. (child_fits n c l m).1;
    parent_child = λ n p l e. (has_parent n p (node h n).parent (parts n l).0 e).1;
    root_only = λ n l e. no_parent n (node h n).parent (parts n l).0 e;
  }

abbrev pub plain : StateKind → Bool
plain StateKind.history = false
plain _ = true

pub plain_iff : (k : StateKind) → plain k ≡ true → k ≢ StateKind.history
plain_iff k e f = cc (rw f at e)

abbrev initial_fits : Heap → Addr → Option Addr → Bool
initial_fits h n none = true
initial_fits h n (some c) = mem c (node h n).children

abbrev history_fits : Heap → History → Addr → StateKind → Bool
history_fits h hist n StateKind.history =
    all (λ s. ltb s (length h) && plain (node h s).kind && is_descendant h s (node h n).parent)
      (restore h hist n)
history_fits h hist n _ = true

unfoldable restorable_at : Heap → History → Addr → Bool
restorable_at h hist n =
    initial_fits h n (node h n).initial && history_fits h hist n (node h n).kind

unfoldable pub checks_history : Heap → History → Bool
unfolding restorable_at
checks_history h hist = up_to (length h) (restorable_at h hist)

module _ (h : Heap) (hist : History) (tree : IsTree h)
    (checked : checks_history h hist ≡ true) where
  restorable_parts :
      (n : Addr)
      → n < length h
      → (initial_fits h n (node h n).initial ≡ true)
        × (history_fits h hist n (node h n).kind ≡ true)
  unfolding checks_history restorable_at
  restorable_parts n l = (&&_iff _ _).0 (up_to_holds (length h) (restorable_at h hist) checked n l)

  initial_mem :
      (n c : Addr) (o : Option Addr)
      → initial_fits h n o ≡ true
      → o ≡ some c
      → mem c (node h n).children ≡ true
  initial_mem n c none e f = cc
  initial_mem n c (some d) e f = (let same : d ≡ c = cc in rw (← same) e)

  descends_from_none : (n : Addr) → is_descendant h n none ≡ false
  unfolding is_descendant
  descends_from_none n = refl

  restored-Below :
      (s : Addr) (o : Option Addr)
      → s < length h
      → is_descendant h s o ≡ true
      → (p : Addr) × (o ≡ some p) × Below h s p
  restored-Below s none l e = cc (descends_from_none s)
  restored-Below s (some p) l e = (p, refl, (is_descendant_iff h tree s p l).0 e)

  pub checks_history-Restorable : Restorable h hist
  checks_history-Restorable = record {
    tree = tree;
    initial_child = λ n c l e. initial_mem n c (node h n).initial (restorable_parts n l).0 e;
    restored = λ n s l is m.
        (let e = all_holds _ (restore h hist n) s (rw is at (restorable_parts n l).1) m in
          let (lt, is_plain, below) = three _ _ _ e in
          let s_in = (ltb_iff s (length h)).0 lt in
          let (p, parent, b) = restored-Below s (node h n).parent s_in below in
          (p, parent, s_in, plain_iff (node h s).kind is_plain, b));
  }

-- A transition from a state on an event; an empty event makes it eventless.
abbrev pub edge : ℕ → Addr → String → List Addr → Transition
edge addr source event targets = record {
  addr = addr;
  source = source;
  event = event;
  guard = none;
  targets = targets;
  actions = record { typ = "act"; params = end; callsite = some addr } ∷ [];
  doc_order = addr;
  is_after = false;
  delay = record { millis = 0; symbol = "" };
}

abbrev pub timer_edge : ℕ → Addr → String → ℕ → List Addr → Transition
timer_edge addr source event millis targets = record (edge addr source event targets) {
  is_after = true;
  delay = record { millis = millis; symbol = "" };
}

abbrev pub state :
    Addr → String → StateKind → Option Addr → List Addr → Option Addr → List Transition → StateNode
state n id kind parent children initial trs = record blank {
  id = id;
  key = id;
  kind = kind;
  parent = parent;
  children = children;
  initial = initial;
  transitions = trs;
  doc_order = n;
}

-- A root with `idle` and the parallel state `work`, whose regions are `left` and `right`; `left`
-- has a shallow history.
abbrev pub job : Heap
job =
    state 0 "job" StateKind.compound none (1 ∷ 2 ∷ []) (some 1) []
    ∷ state 1 "idle" StateKind.atomic (some 0) [] none
        (edge 0 1 "go" (2 ∷ []) ∷ timer_edge 1 1 "job.after" 50 (2 ∷ []) ∷ [])
    ∷ state 2 "work" StateKind.parallel (some 0) (3 ∷ 7 ∷ []) none (edge 2 2 "stop" (1 ∷ []) ∷ [])
    ∷ state 3 "left" StateKind.compound (some 2) (4 ∷ 5 ∷ 6 ∷ []) (some 4) []
    ∷ state 4 "l1" StateKind.atomic (some 3) [] none (edge 3 4 "go" (5 ∷ []) ∷ [])
    ∷ state 5 "l2" StateKind.final (some 3) [] none []
    ∷ record (state 6 "lh" StateKind.history (some 3) [] none []) { history_to = 4 ∷ [] }
    ∷ state 7 "right" StateKind.compound (some 2) (8 ∷ []) (some 8) []
    ∷ state 8 "r1" StateKind.atomic (some 7) [] none (edge 4 8 "go" (8 ∷ []) ∷ [])
    ∷ []

abbrev pub working : List Addr
working = 0 ∷ 2 ∷ 3 ∷ 4 ∷ 7 ∷ 8 ∷ []

pub job-IsTree : IsTree job
unfolding well_laid fits_at node
job-IsTree = well_laid-IsTree job refl

-- The chart `job`, whose states note their entry.
abbrev notes_entry : StateNode → StateNode
notes_entry s = record s {
  entry = record { typ = "note"; params = end; callsite = some s.doc_order } ∷ [];
}

abbrev pub noting_job : Heap
noting_job = map notes_entry job

pub noting_job-IsTree : IsTree noting_job
unfolding well_laid fits_at node
noting_job-IsTree = well_laid-IsTree noting_job refl

-- Two states that lead to each other without an event.
abbrev pub spin : Heap
spin =
    state 0 "spin" StateKind.compound none (1 ∷ 2 ∷ []) (some 1) []
    ∷ state 1 "a" StateKind.atomic (some 0) [] none (edge 0 1 "" (2 ∷ []) ∷ [])
    ∷ state 2 "b" StateKind.atomic (some 0) [] none (edge 1 2 "" (1 ∷ []) ∷ [])
    ∷ []

pub spin-IsTree : IsTree spin
unfolding well_laid fits_at node
spin-IsTree = well_laid-IsTree spin refl

abbrev pub chart : String → Heap → Definition
chart id h = record { id = id; root = 0; heap = h; nodes = []; action_count = 5; guard_count = 0 }

pub job-Restorable : Restorable job []
unfolding checks_history restorable_at restore node is_descendant
job-Restorable = checks_history-Restorable job [] job-IsTree refl

pub spin-Restorable : Restorable spin []
unfolding checks_history restorable_at restore node is_descendant
spin-Restorable = checks_history-Restorable spin [] spin-IsTree refl
