-- ===== src/Schema/Parse.antt =====
-- The parse stage (schema/parse.go): from tokens to the tree that the builder reads. Every object
-- goes by its known keys; an unknown key is an error.
pub mod Print
pub mod Loops
pub mod Values
pub mod Parts
pub mod RoundTrip
pub mod Ends
pub mod Decodes
pub mod PartsEnd
pub mod Answers
pub mod Refuses
use statesman.Base.{
  ℕ, zero, suc, ◌+◌, String, Bool, true, false, Option, none, some, List, [], ◌∷◌, ◌++◌, ◌||◌,
  length, if◌then◌else◌, str_eq, any,
}
use statesman.Json.{Fields, end}
use statesman.Schema.{
  DtoAction, DtoGuard, DtoTransition, DtoEvent, DtoInvoke, DtoFields, DtoState, DtoChildren, state,
  nil, cons, Result, ok, err, fail, ◌>>=◌, transition_expected, unknown_field, root_only_field,
  malformed, trailing_token, exhausted,
}
use statesman.Schema.Tokens.{
  Delim, Token, Tokens, Parser, open_object, close_object, open_array, delim, string, broken,
  key_path, index_path, read_string, read_object, object_body, read_array, array_body, skip_value,
  read_params, expect_delim,
}

-- A read whose value goes into the structure that is being filled.
abbrev pub into : {A B : Type 0} → Parser A → (A → B) → Parser B
into p f ts = do (a, rest) ← p ts; ok (f a, rest)

abbrev pub unknown : {A : Type 0} → String → Parser A
unknown path ts = fail path unknown_field

unfoldable pub action_field : String → String → DtoAction → Parser DtoAction
action_field path key a =
    let kp = key_path path key in
    if str_eq key "type"
    then into (read_string kp) (λ s. record a { typ = s; has_type = true })
    else if str_eq key "params"
    then into (read_params kp) (λ v. record a { params = v })
    else unknown kp

abbrev pub blank_action : String → DtoAction
blank_action path = record { path = path; has_type = false; typ = ""; params = end }

unfoldable pub parse_action : String → Parser DtoAction
unfolding action_field read_object
parse_action path = read_object path (action_field path) (blank_action path)

unfoldable pub parse_actions : String → Parser (List DtoAction)
unfolding parse_action read_array
parse_actions path = read_array path (λ i. parse_action (index_path path i))

unfoldable pub guard_field : String → String → DtoGuard → Parser DtoGuard
guard_field path key g =
    let kp = key_path path key in
    if str_eq key "type"
    then into (read_string kp) (λ s. record g { typ = s; has_type = true })
    else if str_eq key "params"
    then into (read_params kp) (λ v. record g { params = v })
    else unknown kp

abbrev pub blank_guard : String → DtoGuard
blank_guard path = record { path = path; has_type = false; typ = ""; params = end }

unfoldable pub parse_guard : String → Parser DtoGuard
unfolding guard_field read_object
parse_guard path = read_object path (guard_field path) (blank_guard path)

unfoldable pub transition_field : String → String → DtoTransition → Parser DtoTransition
unfolding parse_actions parse_guard
transition_field path key tr =
    let kp = key_path path key in
    if str_eq key "target"
    then into (read_string kp) (λ s. record tr { target = s; has_target = true })
    else if str_eq key "actions"
    then into (parse_actions kp) (λ acts. record tr { actions = acts })
    else if str_eq key "guard"
    then into (parse_guard kp) (λ g. record tr { guard = some g })
    else if str_eq key "description" || str_eq key "meta"
    then into (skip_value kp) (λ _. tr)
    else unknown kp

abbrev pub blank_transition : String → DtoTransition
blank_transition path = record {
  path = path;
  has_target = false;
  target = "";
  actions = [];
  guard = none;
}

unfoldable pub parse_transition_body : String → Parser DtoTransition
unfolding transition_field object_body
parse_transition_body path = object_body path (transition_field path) (blank_transition path)

unfoldable pub parse_transition : String → Parser DtoTransition
unfolding parse_transition_body expect_delim
parse_transition path ts = do
  (_, body) ← expect_delim path open_object ts
  parse_transition_body path body

-- One transition or an array of them, by the token that comes first.
unfoldable pub parse_transition_list : String → Parser (List DtoTransition)
unfolding parse_transition array_body
parse_transition_list path (delim open_array ∷ ts) =
    array_body path (λ i. parse_transition (index_path path i)) ts
parse_transition_list path (delim open_object ∷ ts) =
    into (parse_transition_body path) (λ tr. tr ∷ []) ts
parse_transition_list path ts = fail path transition_expected

abbrev add_event : String → String → List DtoEvent → List DtoTransition → List DtoEvent
add_event key kp out trs = out ++ record { desc = key; path = kp; transitions = trs } ∷ []

unfoldable pub event_field : String → String → List DtoEvent → Parser (List DtoEvent)
unfolding parse_transition_list
event_field path key out =
    let kp = key_path path key in into (parse_transition_list kp) (add_event key kp out)

unfoldable pub parse_events : String → Parser (List DtoEvent)
unfolding event_field read_object
parse_events path = read_object path (event_field path) []

unfoldable pub invoke_field : String → String → DtoInvoke → Parser DtoInvoke
unfolding parse_transition_list
invoke_field path key iv =
    let kp = key_path path key in
    if str_eq key "id"
    then into (read_string kp) (λ s. record iv { id = s; has_id = true })
    else if str_eq key "src"
    then into (read_string kp) (λ s. record iv { src = s; has_src = true })
    else if str_eq key "meta"
    then into (skip_value kp) (λ _. iv)
    else if str_eq key "onDone"
    then into (parse_transition_list kp) (λ trs. record iv { on_done = trs })
    else if str_eq key "onError"
    then into (parse_transition_list kp) (λ trs. record iv { on_error = trs })
    else unknown kp

abbrev pub blank_invoke : String → DtoInvoke
blank_invoke path = record {
  path = path;
  has_id = false;
  id = "";
  has_src = false;
  src = "";
  on_done = [];
  on_error = [];
}

unfoldable pub parse_invoke : String → Parser DtoInvoke
unfolding invoke_field read_object
parse_invoke path = read_object path (invoke_field path) (blank_invoke path)

unfoldable pub parse_invokes : String → Parser (List DtoInvoke)
unfolding parse_invoke read_array
parse_invokes path = read_array path (λ i. parse_invoke (index_path path i))

-- The fields of a state, and its children read so far.
abbrev pub StateSoFar : Type 0
StateSoFar = DtoFields × DtoChildren

abbrev pub blank_state : String → StateSoFar
blank_state path = (
  record {
    path = path;
    has_id = false;
    id = "";
    has_type = false;
    typ = "";
    has_target = false;
    target = "";
    has_history = false;
    history = "";
    has_initial = false;
    initial = "";
    entry = [];
    exit = [];
    on = [];
    after = [];
    always = [];
    invoke = [];
    has_states = false;
  },
  DtoChildren.nil,
)

abbrev pub change : (DtoFields → DtoFields) → StateSoFar → StateSoFar
change f st = (f st.0, st.1)

abbrev add_child : String → DtoChildren → DtoState → DtoChildren
add_child key DtoChildren.nil st = DtoChildren.cons key st DtoChildren.nil
add_child key (DtoChildren.cons k s out) st = DtoChildren.cons k s (add_child key out st)

-- `parseStates`, with the call of `parseState` handed to it.
unfoldable pub child_field :
    (String → Parser DtoState) → String → String → DtoChildren → Parser DtoChildren
child_field recurse path key out = into (recurse (key_path path key)) (add_child key out)

unfoldable pub parse_states : (String → Parser DtoState) → String → Parser DtoChildren
unfolding child_field read_object
parse_states recurse path = read_object path (child_field recurse path) DtoChildren.nil

-- The fields that only the root has.
unfoldable pub root_field : Bool → String → StateSoFar → Parser StateSoFar
unfolding skip_value
root_field root kp st ts =
    if root then into (skip_value kp) (λ _. st) ts else fail kp root_only_field

unfoldable pub state_field :
    (String → Parser DtoState) → String → Bool → String → StateSoFar → Parser StateSoFar
unfolding parse_actions parse_events parse_transition_list parse_invokes parse_states root_field
state_field recurse path root key st =
    let kp = key_path path key in
    let text =
      λ (f : String → DtoFields → DtoFields). into (read_string kp) (λ s. change (f s) st) in
    if str_eq key "id"
    then text (λ s d. record d { id = s; has_id = true })
    else if str_eq key "description"
    then into (skip_value kp) (λ _. st)
    else if str_eq key "type"
    then text (λ s d. record d { typ = s; has_type = true })
    else if str_eq key "target"
    then text (λ s d. record d { target = s; has_target = true })
    else if str_eq key "history"
    then text (λ s d. record d { history = s; has_history = true })
    else if str_eq key "initial"
    then text (λ s d. record d { initial = s; has_initial = true })
    else if str_eq key "entry"
    then into (parse_actions kp) (λ acts. change (λ d. record d { entry = acts }) st)
    else if str_eq key "exit"
    then into (parse_actions kp) (λ acts. change (λ d. record d { exit = acts }) st)
    else if str_eq key "on"
    then into (parse_events kp) (λ evs. change (λ d. record d { on = evs }) st)
    else if str_eq key "after"
    then into (parse_events kp) (λ evs. change (λ d. record d { after = evs }) st)
    else if str_eq key "always"
    then into (parse_transition_list kp) (λ trs. change (λ d. record d { always = trs }) st)
    else if str_eq key "invoke"
    then into (parse_invokes kp) (λ ivs. change (λ d. record d { invoke = ivs }) st)
    else if str_eq key "meta"
    then into (skip_value kp) (λ _. st)
    else if str_eq key "states"
    then into (parse_states recurse kp) (λ cs. (record st.0 { has_states = true }, cs))
    else if str_eq key "version" || str_eq key "$schema"
    then root_field root kp st
    else unknown kp

unfoldable pub parse_state : ℕ → String → Bool → Parser DtoState
unfolding state_field read_object
parse_state zero path root ts = fail path exhausted
parse_state (suc f) path root ts =
    into (read_object path (state_field (λ p. parse_state f p false) path root) (blank_state path))
      (λ st. state st.0 st.1) ts

-- What follows the machine object.
unfoldable pub finish : DtoState → Tokens → Result DtoState
finish root [] = ok root
finish root (broken ∷ ts) = fail "$" malformed
finish root (t ∷ ts) = fail "$" trailing_token

-- A state takes two tokens at least, so there are no more levels than tokens.
unfoldable pub parse : Tokens → Result DtoState
unfolding parse_state finish
parse ts = do (root, rest) ← parse_state (suc (length ts)) "$" true ts; finish root rest
