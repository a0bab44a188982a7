-- ===== src/Schema/Parse/Print.antt =====
-- A document for a tree of the parse stage, as tokens, and the tree that this document stands for:
-- with the paths of its places, and with nothing in a field whose flag is not set.
use statesman.Base.{ℕ, suc, String, Bool, Option, none, some, List, [], ◌∷◌, ◌++◌, if◌then◌else◌}
use statesman.Json.{Json, Items, Fields, null, boolean, number, text, array, object, end, field}
use statesman.Schema.{
  DtoAction, DtoGuard, DtoTransition, DtoEvent, DtoInvoke, DtoFields, DtoState, DtoChildren, state,
  cons,
}
use statesman.Schema.Tokens.{
  Token, Tokens, open_object, close_object, open_array, close_array, delim, string, numeral, truth,
  key_path, index_path, enter_field,
}

-- The fields of an object, each with the tokens of its value.
abbrev pub Entries : Type 0
Entries = List (String × Tokens)

abbrev pub flatten : Entries → Tokens
flatten [] = []
flatten ((k, ts) ∷ es) = string k ∷ (ts ++ flatten es)

abbrev pub print_object : Entries → Tokens
print_object es = delim open_object ∷ (flatten es ++ delim close_object ∷ [])

abbrev pub join : List Tokens → Tokens
join [] = []
join (ts ∷ tss) = ts ++ join tss

abbrev pub print_array : List Tokens → Tokens
print_array tss = delim open_array ∷ (join tss ++ delim close_array ∷ [])

-- A field that is there only where its flag is set, with a text.
abbrev pub text_entry : Bool → String → String → Entries
text_entry b key s = if b then (key, string s ∷ []) ∷ [] else []

abbrev pub kept_text : Bool → String → String
kept_text b s = if b then s else ""

abbrev mutual
  pub print_value : Json → Tokens
  print_value null = Token.nil ∷ []
  print_value (boolean b) = truth b ∷ []
  print_value (number n) = numeral n ∷ []
  print_value (text s) = string s ∷ []
  print_value (array items) = delim open_array ∷ (print_items items ++ delim close_array ∷ [])
  print_value (object fs) = delim open_object ∷ (print_fields fs ++ delim close_object ∷ [])

  pub print_items : Items → Tokens
  print_items Items.nil = []
  print_items (Items.cons v items) = print_value v ++ print_items items

  pub print_fields : Fields → Tokens
  print_fields end = []
  print_fields (field k v fs) = string k ∷ (print_value v ++ print_fields fs)

-- The value with the later of two entries of an object that have one key.
abbrev mutual
  pub kept : Json → Json
  kept null = null
  kept (boolean b) = boolean b
  kept (number n) = number n
  kept (text s) = text s
  kept (array items) = array (kept_items items)
  kept (object fs) = object (kept_fields fs)

  pub kept_items : Items → Items
  kept_items Items.nil = Items.nil
  kept_items (Items.cons v items) = Items.cons (kept v) (kept_items items)

  pub kept_fields : Fields → Fields
  kept_fields end = end
  kept_fields (field k v fs) = enter_field k (kept v) (kept_fields fs)

abbrev pub action_entries : DtoAction → Entries
action_entries a =
    text_entry a.has_type "type" a.typ ++ ("params", print_value (object a.params)) ∷ []

abbrev pub print_action : DtoAction → Tokens
print_action a = print_object (action_entries a)

abbrev pub place_action : String → DtoAction → DtoAction
place_action path a = record {
  path = path;
  has_type = a.has_type;
  typ = kept_text a.has_type a.typ;
  params = kept_fields a.params;
}

-- The elements of an array, each at its index.
abbrev pub place_all : {A : Type 0} → (String → A → A) → String → ℕ → List A → List A
place_all place path i [] = []
place_all place path i (a ∷ as') = place (index_path path i) a ∷ place_all place path (suc i) as'

abbrev pub print_all : {A : Type 0} → (A → Tokens) → List A → List Tokens
print_all print [] = []
print_all print (a ∷ as') = print a ∷ print_all print as'

abbrev pub print_actions : List DtoAction → Tokens
print_actions acts = print_array (print_all print_action acts)

abbrev pub guard_entries : DtoGuard → Entries
guard_entries g =
    text_entry g.has_type "type" g.typ ++ ("params", print_value (object g.params)) ∷ []

abbrev pub place_guard : String → DtoGuard → DtoGuard
place_guard path g = record {
  path = path;
  has_type = g.has_type;
  typ = kept_text g.has_type g.typ;
  params = kept_fields g.params;
}

abbrev pub guard_entry : Option DtoGuard → Entries
guard_entry none = []
guard_entry (some g) = ("guard", print_object (guard_entries g)) ∷ []

abbrev pub place_option : String → Option DtoGuard → Option DtoGuard
place_option path none = none
place_option path (some g) = some (place_guard path g)

abbrev pub transition_entries : DtoTransition → Entries
transition_entries tr =
    text_entry tr.has_target "target" tr.target
    ++ (("actions", print_actions tr.actions) ∷ guard_entry tr.guard)

abbrev pub print_transition : DtoTransition → Tokens
print_transition tr = print_object (transition_entries tr)

abbrev pub place_transition : String → DtoTransition → DtoTransition
place_transition path tr = record {
  path = path;
  has_target = tr.has_target;
  target = kept_text tr.has_target tr.target;
  actions = place_all place_action (key_path path "actions") 0 tr.actions;
  guard = place_option (key_path path "guard") tr.guard;
}

abbrev pub print_transitions : List DtoTransition → Tokens
print_transitions trs = print_array (print_all print_transition trs)

abbrev pub place_transitions : String → List DtoTransition → List DtoTransition
place_transitions path trs = place_all place_transition path 0 trs

abbrev pub event_entries : List DtoEvent → Entries
event_entries [] = []
event_entries (ev ∷ evs) = (ev.desc, print_transitions ev.transitions) ∷ event_entries evs

abbrev pub place_events : String → List DtoEvent → List DtoEvent
place_events path [] = []
place_events path (ev ∷ evs) =
    record {
      desc = ev.desc;
      path = key_path path ev.desc;
      transitions = place_transitions (key_path path ev.desc) ev.transitions;
    }
    ∷ place_events path evs

abbrev pub invoke_entries : DtoInvoke → Entries
invoke_entries iv =
    text_entry iv.has_id "id" iv.id
    ++ (text_entry iv.has_src "src" iv.src
        ++ (("onDone", print_transitions iv.on_done)
            ∷ ("onError", print_transitions iv.on_error)
            ∷ []))

abbrev pub print_invoke : DtoInvoke → Tokens
print_invoke iv = print_object (invoke_entries iv)

abbrev pub place_invoke : String → DtoInvoke → DtoInvoke
place_invoke path iv = record {
  path = path;
  has_id = iv.has_id;
  id = kept_text iv.has_id iv.id;
  has_src = iv.has_src;
  src = kept_text iv.has_src iv.src;
  on_done = place_transitions (key_path path "onDone") iv.on_done;
  on_error = place_transitions (key_path path "onError") iv.on_error;
}

abbrev pub text_fields : DtoFields → Entries
text_fields d =
    text_entry d.has_id "id" d.id
    ++ (text_entry d.has_type "type" d.typ
        ++ (text_entry d.has_target "target" d.target
            ++ (text_entry d.has_history "history" d.history
                ++ text_entry d.has_initial "initial" d.initial)))

abbrev pub list_fields : DtoFields → Entries
list_fields d =
    ("entry", print_actions d.entry)
    ∷ ("exit", print_actions d.exit)
    ∷ ("on", print_object (event_entries d.on))
    ∷ ("after", print_object (event_entries d.after))
    ∷ ("always", print_transitions d.always)
    ∷ ("invoke", print_array (print_all print_invoke d.invoke))
    ∷ []

abbrev pub place_fields : String → DtoFields → DtoFields
place_fields path d = record {
  path = path;
  has_id = d.has_id;
  id = kept_text d.has_id d.id;
  has_type = d.has_type;
  typ = kept_text d.has_type d.typ;
  has_target = d.has_target;
  target = kept_text d.has_target d.target;
  has_history = d.has_history;
  history = kept_text d.has_history d.history;
  has_initial = d.has_initial;
  initial = kept_text d.has_initial d.initial;
  entry = place_all place_action (key_path path "entry") 0 d.entry;
  exit = place_all place_action (key_path path "exit") 0 d.exit;
  on = place_events (key_path path "on") d.on;
  after = place_events (key_path path "after") d.after;
  always = place_transitions (key_path path "always") d.always;
  invoke = place_all place_invoke (key_path path "invoke") 0 d.invoke;
  has_states = d.has_states;
}

abbrev pub states_entry : Bool → Entries → Entries
states_entry b children = if b then ("states", print_object children) ∷ [] else []

abbrev mutual
  pub print_state : DtoState → Tokens
  print_state (state d cs) =
      print_object
        (text_fields d ++ (list_fields d ++ states_entry d.has_states (child_entries cs)))

  pub child_entries : DtoChildren → Entries
  child_entries DtoChildren.nil = []
  child_entries (cons key st cs) = (key, print_state st) ∷ child_entries cs

abbrev pub kept_children : Bool → DtoChildren → DtoChildren
kept_children b cs = if b then cs else DtoChildren.nil

abbrev mutual
  pub place_state : String → DtoState → DtoState
  place_state path (state d cs) =
      state (place_fields path d)
        (kept_children d.has_states (place_children (key_path path "states") cs))

  pub place_children : String → DtoChildren → DtoChildren
  place_children path DtoChildren.nil = DtoChildren.nil
  place_children path (cons key st cs) =
      cons key (place_state (key_path path key) st) (place_children path cs)
