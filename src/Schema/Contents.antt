-- ===== src/Schema/Contents.antt =====
-- What fills the nodes: `buildContents`, `transitions`, `transition`, `invokes`, `actions` and
-- `guard` of schema/build.go.
use statesman.Base.{
  ℕ, suc, String, Bool, true, false, not, Option, none, some, List, [], ◌∷◌, ◌++◌, ◌||◌, str_eq,
  str_append, if◌then◌else◌, get_or,
}
use statesman.Definition.{
  Addr, Heap, StateKind, HistoryKind, ActionRef, GuardRef, Delay, Transition, Invoke, node,
}
use statesman.Schema.{
  DtoAction, DtoGuard, DtoTransition, DtoEvent, DtoInvoke, DtoFields, Builder, TargetSpec, Result,
  ok, fail, ◌>>=◌, ◌>>◌, write, action_type_required, guard_type_required, invoke_id_required,
  invoke_src_required, compound_requires_initial, initial_not_a_child, history_parent, history_kind,
  history_on_history,
}
use statesman.Schema.Text.{validate_event_descriptor, parse_delay}
use statesman.Schema.Nodes.{find_child}

-- `actions`; a callsite of -1 is `none`.
unfoldable pub actions : List DtoAction → Result (List ActionRef)
actions [] = ok []
actions (a ∷ rest) =
    if not a.has_type || str_eq a.typ "" then fail a.path action_type_required else (do
      refs ← actions rest
      ok (record { typ = a.typ; params = a.params; callsite = none } ∷ refs))

unfoldable pub guard : Option DtoGuard → Result (Option GuardRef)
guard none = ok none
guard (some g) =
    if not g.has_type || str_eq g.typ ""
    then fail g.path guard_type_required
    else ok (some (record { typ = g.typ; params = g.params; callsite = none }))

-- `transition`: the new pointer is the builder's next address of a transition.
unfoldable pub transition :
    Addr → DtoTransition → String → Bool → Delay → ℕ → Builder → Result (Transition × Builder)
unfolding actions guard
transition src dto event is_after delay doc b = do
  g ← guard dto.guard
  acts ← actions dto.actions
  let t = b.next_transition
  let spec : TargetSpec = record { has = dto.has_target; raw = dto.target; path = dto.path }
  ok (
    record {
      addr = t;
      source = src;
      event = event;
      guard = g;
      targets = [];
      actions = acts;
      doc_order = doc;
      is_after = is_after;
      delay = delay;
    },
    record b { tspec = (t, spec) ∷ b.tspec; next_transition = suc t },
  )

-- A loop that makes one transition of each entry, the document order counting on from `doc`.
unfoldable pub transition_list :
    Addr
    → List DtoTransition
    → String
    → Bool
    → Delay
    → ℕ
    → Builder
    → Result (List Transition × Builder)
unfolding transition
transition_list src [] event is_after delay doc b = ok ([], b)
transition_list src (tr ∷ rest) event is_after delay doc b = do
  (t, b') ← transition src tr event is_after delay doc b
  (ts, b'') ← transition_list src rest event is_after delay (suc doc) b'
  ok (t ∷ ts, b'')

abbrev pub no_delay : Delay
no_delay = record { millis = 0; symbol = "" }

abbrev pub count {ℓ} : {A : Type ℓ} → ℕ → List A → ℕ
count doc [] = doc
count doc (x ∷ xs) = count (suc doc) xs

-- The loop over `dto.on`, with the document order that it ends at.
unfoldable pub on_transitions :
    Addr → List DtoEvent → ℕ → Builder → Result (List Transition × ℕ × Builder)
unfolding transition_list validate_event_descriptor
on_transitions src [] doc b = ok ([], doc, b)
on_transitions src (ev ∷ rest) doc b = do
  validate_event_descriptor ev.desc ev.path
  (ts, b') ← transition_list src ev.transitions ev.desc false no_delay doc b
  (ts', doc', b'') ← on_transitions src rest (count doc ev.transitions) b'
  ok (ts ++ ts', doc', b'')

-- `fmt.Sprintf("xstate.after(%s)#%s", ev.desc, n.ID)`
abbrev pub after_event : String → String → String
after_event desc id = str_append "xstate.after(" (str_append desc (str_append ")#" id))

-- The loop over `dto.after`.
unfoldable pub after_transitions :
    Addr → String → List DtoEvent → ℕ → Builder → Result (List Transition × ℕ × Builder)
unfolding transition_list parse_delay
after_transitions src id [] doc b = ok ([], doc, b)
after_transitions src id (ev ∷ rest) doc b = do
  delay ← parse_delay ev.desc ev.path
  (ts, b') ← transition_list src ev.transitions (after_event ev.desc id) true delay doc b
  (ts', doc', b'') ← after_transitions src id rest (count doc ev.transitions) b'
  ok (ts ++ ts', doc', b'')

-- `transitions`: `on`, then `after`, then `always`.
unfoldable pub transitions :
    Addr → String → DtoFields → Builder → Result (List Transition × Builder)
unfolding on_transitions after_transitions transition_list
transitions src id dto b = do
  (on, doc, b') ← on_transitions src dto.on 0 b
  (after, doc', b'') ← after_transitions src id dto.after doc b'
  (always, b''') ← transition_list src dto.always "" false no_delay doc' b''
  ok (on ++ (after ++ always), b''')

-- `invokes`: the edges of each invoke count from 0.
unfoldable pub invokes : Addr → List DtoInvoke → Builder → Result (List Invoke × Builder)
unfolding transition_list
invokes src [] b = ok ([], b)
invokes src (iv ∷ rest) b =
    if not iv.has_id || str_eq iv.id ""
    then fail iv.path invoke_id_required
    else if not iv.has_src || str_eq iv.src ""
    then fail iv.path invoke_src_required
    else (do
      let done_event = str_append "done.invoke." iv.id
      let error_event = str_append "error.invoke." iv.id
      (on_done, b') ← transition_list src iv.on_done done_event false no_delay 0 b
      (on_error, b'') ← transition_list src iv.on_error error_event false no_delay 0 b'
      (ivs, b''') ← invokes src rest b''
      ok (record { id = iv.id; src = iv.src; on_done = on_done; on_error = on_error } ∷ ivs, b'''))

-- The `initial` of a compound state; nil for the other kinds.
unfoldable pub initial_of : Heap → Addr → StateKind → DtoFields → Result (Option Addr)
unfolding find_child
initial_of h n StateKind.compound dto =
    if not dto.has_initial || str_eq dto.initial ""
    then fail dto.path compound_requires_initial
    else elim (find_child h n dto.initial) [
      | none ↦ fail (str_append dto.path ".initial") initial_not_a_child
      | some child ↦ ok (some child)
    ]
initial_of h n _ dto = ok none

abbrev pub holds_history : StateKind → Bool
holds_history StateKind.compound = true
holds_history StateKind.parallel = true
holds_history _ = false

abbrev parent_holds_history : Heap → Option Addr → Bool
parent_holds_history h none = false
parent_holds_history h (some p) = holds_history (node h p).kind

-- The history kind; `history` on any other state is an error.
unfoldable pub history_kind_of : Heap → Option Addr → StateKind → DtoFields → Result HistoryKind
history_kind_of h parent StateKind.history dto =
    if not (parent_holds_history h parent)
    then fail dto.path history_parent
    else if not dto.has_history || str_eq dto.history "shallow"
    then ok HistoryKind.shallow
    else if str_eq dto.history "deep"
    then ok HistoryKind.deep
    else fail (str_append dto.path ".history") history_kind
history_kind_of h parent _ dto =
    if dto.has_history
    then fail (str_append dto.path ".history") history_on_history
    else ok HistoryKind.shallow

abbrev pub no_dto : DtoFields
no_dto = record {
  path = "";
  has_id = false;
  id = "";
  has_type = false;
  typ = "";
  has_target = false;
  target = "";
  has_history = false;
  history = "";
  has_initial = false;
  initial = "";
  entry = [];
  exit = [];
  on = [];
  after = [];
  always = [];
  invoke = [];
  has_states = false;
}

-- `b.nodeDTO[n]`
abbrev pub dto_of : Builder → Addr → DtoFields
dto_of b n = get_or b.dtos n no_dto

-- The body of the loop of `buildContents`.
unfoldable pub build_content : Addr → Builder → Result Builder
unfolding actions initial_of history_kind_of transitions invokes
build_content n b = do
  let dto = dto_of b n
  let v = node b.heap n
  entry ← actions dto.entry
  exit ← actions dto.exit
  initial ← initial_of b.heap n v.kind dto
  history ← history_kind_of b.heap v.parent v.kind dto
  (trs, b') ← transitions n v.id dto b
  (ivs, b'') ← invokes n dto.invoke b'
  ok (
      write n
        (record v {
          entry = entry;
          exit = exit;
          initial = initial;
          history_kind = history;
          transitions = trs;
          invokes = ivs;
        })
        b'')

unfoldable pub build_contents : List Addr → Builder → Result Builder
unfolding build_content
build_contents [] b = ok b
build_contents (n ∷ ns) b = do b' ← build_content n b; build_contents ns b'
