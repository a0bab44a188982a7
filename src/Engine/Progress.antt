-- ===== src/Engine/Progress.antt =====
-- `step` (microstep.go) always answers: the entry set comes back within its fuel.
use statesman.Base.{
  ◌≡◌, refl, suc, ◌<◌, Bool, true, false, Option, none, some, List, [], String, ◌∷◌, ◌&&◌, inl, inr,
  length, All, find, leb, Bool-cases, List-cases, ◌>>=◌,
}
use statesman.Definition.{Addr, Heap, Transition, Definition, node, eventless, proper_ancestors}
use statesman.Configuration.{Configuration}
use statesman.Select.{
  GuardPredicate, node_evented_transitions, fires_on, or_else, match_at_node, select_by,
  select_transitions, select_eventless_transitions,
}
use statesman.Select.Match.{Innermost, here, above, Enabled, select_by_lem}
use statesman.Entry.Total.{Returns, Restorable, Targeted, compute_entry_set-Returns}
use statesman.Engine.{Hooks, QueuedEvent, Engine, guard_pass}
use statesman.Engine.Apply.{start, microstep_for}
use statesman.Engine.Step.{staged, select_for, step_external, step_internal, step}
use statesman.Engine.Priority.{microstep_for-some}

-- What `find` and a choice of two searches find.
pub find-All :
    {A : Type 0} (P : A → Type 0) (p : A → Bool) (xs : List A) (x : A)
    → All P xs
    → find p xs ≡ some x
    → P x
find-All P p [] x all e = cc
find-All P p (y ∷ ys) x (py, all) e = elim (Bool-cases (p y)) [
  | inl hit ↦ (let same : y ≡ x = cc (rw hit at e) in rw (← same) py)
  | inr miss ↦ find-All P p ys x all (rw miss at e)
]

pub or_else-holds :
    {A : Type 0} (P : A → Type 0) (o p : Option A) (x : A)
    → ((y : A) → o ≡ some y → P y)
    → ((y : A) → p ≡ some y → P y)
    → or_else o p ≡ some x
    → P x
or_else-holds P none p x f g e = g x e
or_else-holds P (some y) p x f g e = f x e

pub All-mono :
    {A : Type 0} (P Q : A → Type 0) (xs : List A) → ((x : A) → P x → Q x) → All P xs → All Q xs
All-mono P Q [] f all = tt
All-mono P Q (x ∷ xs) f (px, all) = (f x px, All-mono P Q xs f all)

module _ (h : Heap) where
  abbrev pub InHeap : Transition → Type 0
  InHeap t = All (λ a. a < length h) t.targets

  -- Every transition of every state, those of its invokes included, targets states.
  abbrev pub Linked : Type 0
  Linked =
      (n : Addr)
      → Targeted h (node_evented_transitions (node h n)) × Targeted h (node h n).transitions

  Innermost-holds :
      (P : Transition → Type 0) (at : Addr → Option Transition) (t : Transition) (ss : List Addr)
      → ((s : Addr) (u : Transition) → at s ≡ some u → P u)
      → Innermost at t ss
      → P t
  Innermost-holds P at t _ holds (here {s = s} e) = holds s t e
  Innermost-holds P at t _ holds (above {ss = ss} e i) = Innermost-holds P at t ss holds i

  -- Selected transitions come from the states.
  select_by-Targeted :
      (cfg : Configuration) (at : Addr → Option Transition)
      → ((s : Addr) (t : Transition) → at s ≡ some t → InHeap t)
      → Targeted h (select_by h cfg at)
  select_by-Targeted cfg at holds =
      All-mono (Enabled h cfg at) InHeap (select_by h cfg at)
        (λ t enabled.
          (let (st, active, i) = enabled in
            Innermost-holds InHeap at t (st ∷ proper_ancestors h st) holds i))
        (select_by_lem h cfg at).0

  select_transitions-Targeted :
      Linked
      → (cfg : Configuration) (event : String) (pass : GuardPredicate)
      → Targeted h (select_transitions h cfg event pass)
  unfolding select_transitions match_at_node
  select_transitions-Targeted linked cfg event pass =
      select_by-Targeted cfg (λ s. match_at_node (node h s) event pass)
        (λ s t e.
          or_else-holds InHeap (find (fires_on event pass) (node_evented_transitions (node h s)))
            (find (fires_on "*" pass) (node_evented_transitions (node h s))) t
            (λ u f. find-All InHeap (fires_on event pass) _ u (linked s).0 f)
            (λ u f. find-All InHeap (fires_on "*" pass) _ u (linked s).0 f) e)

  select_eventless-Targeted :
      Linked
      → (cfg : Configuration) (pass : GuardPredicate)
      → Targeted h (select_eventless_transitions h cfg pass)
  unfolding select_eventless_transitions
  select_eventless-Targeted linked cfg pass = select_by-Targeted cfg _ (λ s t e.
      find-All InHeap (λ u. eventless u && pass u) (node h s).transitions t (linked s).1 e)

module _ {Ctx Evt Cmd : Type 0} (hooks : Hooks Ctx Evt Cmd) (d : Definition)
    (linked : Linked d.heap) (root_in : d.root < length d.heap) where
  staged-Returns :
      (e : Engine Ctx Evt) (ts : List Transition) (evt : Evt) (b : Bool)
      → Restorable d.heap e.hist
      → Targeted d.heap ts
      → Returns (staged hooks (microstep_for hooks d e ts evt b))
  staged-Returns e ts evt b ok inside =
      let (entries, f) = (compute_entry_set-Returns d.heap e.hist ok ts d.root inside root_in).0 in
      (_, microstep_for-some hooks d e ts evt b entries f)

  step_external-Returns :
      (e : Engine Ctx Evt) (o : Option (QueuedEvent Evt))
      → Restorable d.heap e.hist
      → Returns (step_external hooks d e o)
  unfolding step_external
  step_external-Returns e none ok = (_, refl)
  step_external-Returns e (some qe) ok =
      let e' = record e { pending_external = none } in
      let inside =
        select_transitions-Targeted d.heap linked e.cfg qe.descriptor
          (guard_pass hooks e' qe.payload) in
      elim (List-cases (select_for hooks d e' qe)) [
        | inl f ↦ rw (f, step_external) (_, refl)
        | inr (t, ts, f) ↦
            rw (f, step_external) (staged-Returns e' (t ∷ ts) qe.payload true ok (rw f at inside))
      ]

  step_internal-Returns :
      (e : Engine Ctx Evt) (qs : List (QueuedEvent Evt))
      → Restorable d.heap e.hist
      → Returns (step_internal hooks d e qs)
  unfolding step_internal
  step_internal-Returns e [] ok =
      step_external-Returns (record e { internal_queue = [] }) e.pending_external ok
  step_internal-Returns e (qe ∷ rest) ok =
      let e' = record e { internal_queue = rest } in
      let inside =
        select_transitions-Targeted d.heap linked e.cfg qe.descriptor
          (guard_pass hooks e' qe.payload) in
      elim (List-cases (select_for hooks d e' qe)) [
        | inl f ↦ rw (f, step_internal) (step_internal-Returns e rest ok)
        | inr (t, ts, f) ↦
            rw (f, step_internal) (staged-Returns e' (t ∷ ts) qe.payload true ok (rw f at inside))
      ]

  -- `step` and the initial entry answer within the fuel of the entry set, for every configuration,
  -- guard and queue, where the chart is a tree, its root and the targets are states, default
  -- children are children, and what history states restore are states below their parents that are
  -- no history states.
  pub step-Returns :
      (e : Engine Ctx Evt)
      → Restorable d.heap e.hist
      → Returns (step hooks d e) × Returns (start hooks d e)
  unfolding step start
  step-Returns e ok = (
    elim (List-cases (select_eventless_transitions d.heap e.cfg pass)) [
      | inl f ↦ rw (f, step) (step_internal-Returns e e.internal_queue ok)
      | inr (t, ts, f) ↦ elim (Bool-cases (leb e.always_limit e.always_run)) [
        | inl over ↦ rw (f, step, over) (_, refl)
        | inr under ↦
            let inside = select_eventless-Targeted d.heap linked e.cfg pass in
            let counted = record e { always_run = suc e.always_run } in
            rw (f, step, under)
              (staged-Returns counted (t ∷ ts) hooks.zero_event false ok (rw f at inside))
      ]
    ],
    (let (entries, f) = (compute_entry_set-Returns d.heap e.hist ok [] d.root tt root_in).1 in
        rw (f, start, ◌>>=◌) (_, refl)),
  )
    where
      pass : GuardPredicate
      pass = guard_pass hooks e hooks.zero_event
