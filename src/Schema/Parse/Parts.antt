-- ===== src/Schema/Parse/Parts.antt =====
-- What stands below a state: actions, guards, transitions, events and invokes are read back.
use statesman.Base.{
  ◌≡◌, refl, ℕ, suc, String, Bool, true, false, Option, none, some, List, [], ◌∷◌, ◌++◌, arith,
}
use mathlib.Core.List.{append_assoc, append-nil}
use statesman.Schema.{DtoAction, DtoGuard, DtoTransition, DtoEvent, DtoInvoke}
use statesman.Schema.Tokens.{Parser, string, key_path, index_path, read_string, more, expect_delim}
use statesman.Schema.Parse.{
  action_field, blank_action, parse_action, parse_actions, guard_field, blank_guard, parse_guard,
  transition_field, blank_transition, parse_transition_body, parse_transition,
  parse_transition_list, event_field, parse_events, invoke_field, blank_invoke, parse_invoke,
  parse_invokes,
}
use statesman.Schema.Parse.Print.{
  Entries, text_entry, kept_text, action_entries, print_action, place_action, place_all, print_all,
  print_actions, guard_entries, place_guard, guard_entry, place_option, transition_entries,
  print_transition, place_transition, print_transitions, place_transitions, event_entries,
  place_events, invoke_entries, print_invoke, place_invoke, print_object, print_array,
}
use statesman.Schema.Parse.Loops.{
  Reads, Runs, Elements, Runs-append, object_body-Reads, read_object-Reads, array_body-Reads,
  read_array-Reads,
}
use statesman.Schema.Parse.Values.{read_params-Reads}

-- A field that is there only where its flag is set. `put` sets the flag and the text.
pub text_entry-Runs :
    {A : Type 0} {step : String → A → Parser A} (b : Bool) (key s : String)
    (put : Bool → String → A)
    → Reads (step key (put false "")) (string s ∷ []) (put true s)
    → Runs step (put false "") (text_entry b key s) (put b (kept_text b s))
text_entry-Runs true key s put reads = Runs.next key (string s ∷ []) (put true s) reads Runs.done
text_entry-Runs false key s put reads = Runs.done

-- An array of objects, each at its index.
pub print_all-Elements :
    {A : Type 0} (item : String → Parser A) (entries : A → Entries) (place : String → A → A)
    → ((path : String) (a : A) → Reads (item path) (print_object (entries a)) (place path a))
    → (path : String) (i : ℕ) (as' : List A)
    → Elements
        (λ i. item (index_path path i))
        i
        (print_all (λ a. print_object (entries a)) as')
        (place_all place path i as')
unfolding more
print_all-Elements item entries place reads path i [] = Elements.done
print_all-Elements item entries place reads path i (a ∷ as') =
    Elements.next (print_object (entries a)) (place (index_path path i) a) (λ rest. refl)
      (omega arith) (reads (index_path path i) a)
      (print_all-Elements item entries place reads path (suc i) as')

parse_action-Reads :
    (path : String) (a : DtoAction)
    → Reads (parse_action path) (print_action a) (place_action path a)
unfolding parse_action action_field read_string
parse_action-Reads path a = read_object-Reads path (action_field path) (
    Runs-append
      (text_entry-Runs a.has_type "type" a.typ
        (λ b s. record (blank_action path) { has_type = b; typ = s }) (λ rest. refl))
      (Runs.next "params" _ (place_action path a)
        (λ rest. rw (read_params-Reads (key_path path "params") a.params rest)) Runs.done))

pub parse_actions-Reads :
    (path : String) (acts : List DtoAction)
    → Reads (parse_actions path) (print_actions acts) (place_all place_action path 0 acts)
unfolding parse_actions
parse_actions-Reads path acts =
    read_array-Reads path (λ i. parse_action (index_path path i))
      (print_all-Elements parse_action action_entries place_action parse_action-Reads path 0 acts)

parse_guard-Reads :
    (path : String) (g : DtoGuard)
    → Reads (parse_guard path) (print_object (guard_entries g)) (place_guard path g)
unfolding parse_guard guard_field read_string
parse_guard-Reads path g = read_object-Reads path (guard_field path) (
    Runs-append
      (text_entry-Runs g.has_type "type" g.typ
        (λ b s. record (blank_guard path) { has_type = b; typ = s }) (λ rest. refl))
      (Runs.next "params" _ (place_guard path g)
        (λ rest. rw (read_params-Reads (key_path path "params") g.params rest)) Runs.done))

-- The guard is there or not.
guard_entry-Runs :
    (path : String) (g : Option DtoGuard) (tr : DtoTransition)
    → tr.guard ≡ none
    → Runs
        (transition_field path)
        tr
        (guard_entry g)
        (record tr { guard = place_option (key_path path "guard") g })
unfolding transition_field
guard_entry-Runs path none tr e = rw (← e) Runs.done
guard_entry-Runs path (some g) tr e =
    Runs.next "guard" (print_object (guard_entries g)) _
      (λ rest. rw (parse_guard-Reads (key_path path "guard") g rest)) Runs.done

transition-Runs :
    (path : String) (tr : DtoTransition)
    → Runs
        (transition_field path)
        (blank_transition path)
        (transition_entries tr)
        (place_transition path tr)
unfolding transition_field read_string
transition-Runs path tr =
    Runs-append
      (text_entry-Runs tr.has_target "target" tr.target
        (λ b s. record (blank_transition path) { has_target = b; target = s }) (λ rest. refl))
      (Runs.next "actions" (print_actions tr.actions)
        (record (place_transition path tr) { guard = none })
        (λ rest. rw (parse_actions-Reads (key_path path "actions") tr.actions rest))
        (guard_entry-Runs path tr.guard (record (place_transition path tr) { guard = none }) refl))

parse_transition-Reads :
    (path : String) (tr : DtoTransition)
    → Reads (parse_transition path) (print_transition tr) (place_transition path tr)
unfolding parse_transition parse_transition_body expect_delim
parse_transition-Reads path tr rest =
    object_body-Reads path (transition_field path) (transition-Runs path tr) rest

-- An array of transitions.
pub parse_transition_list-Reads :
    (path : String) (trs : List DtoTransition)
    → Reads (parse_transition_list path) (print_transitions trs) (place_transitions path trs)
unfolding parse_transition_list
parse_transition_list-Reads path trs rest =
    array_body-Reads path (λ i. parse_transition (index_path path i))
      (print_all-Elements parse_transition transition_entries place_transition
        parse_transition-Reads path 0 trs)
      rest

-- A transition that stands alone is read as a list of one.
pub parse_transition_list-one :
    (path : String) (tr : DtoTransition)
    → Reads (parse_transition_list path) (print_transition tr) (place_transition path tr ∷ [])
unfolding parse_transition_list parse_transition_body
parse_transition_list-one path tr rest =
    rw (object_body-Reads path (transition_field path) (transition-Runs path tr) rest)

event_entries-Runs :
    (path : String) (evs out : List DtoEvent)
    → Runs (event_field path) out (event_entries evs) (out ++ place_events path evs)
unfolding event_field
event_entries-Runs path [] out = rw append-nil Runs.done
event_entries-Runs path (ev ∷ evs) out =
    let placed : DtoEvent = record {
      desc = ev.desc;
      path = key_path path ev.desc;
      transitions = place_transitions (key_path path ev.desc) ev.transitions;
    } in
    Runs.next ev.desc (print_transitions ev.transitions) (out ++ placed ∷ [])
      (λ rest. rw (parse_transition_list-Reads (key_path path ev.desc) ev.transitions rest))
      (rw (← append_assoc out (placed ∷ []) (place_events path evs))
        (event_entries-Runs path evs (out ++ placed ∷ [])))

pub parse_events-Reads :
    (path : String) (evs : List DtoEvent)
    → Reads (parse_events path) (print_object (event_entries evs)) (place_events path evs)
unfolding parse_events
parse_events-Reads path evs =
    read_object-Reads path (event_field path) (event_entries-Runs path evs [])

parse_invoke-Reads :
    (path : String) (iv : DtoInvoke)
    → Reads (parse_invoke path) (print_invoke iv) (place_invoke path iv)
unfolding parse_invoke invoke_field read_string
parse_invoke-Reads path iv =
    let blank = blank_invoke path in
    let with_id = record blank { has_id = iv.has_id; id = kept_text iv.has_id iv.id } in
    let with_src = record with_id { has_src = iv.has_src; src = kept_text iv.has_src iv.src } in
    let done_path = key_path path "onDone" in
    let error_path = key_path path "onError" in
    let with_done = record with_src { on_done = place_transitions done_path iv.on_done } in
    read_object-Reads path (invoke_field path) (
      Runs-append
        (text_entry-Runs iv.has_id "id" iv.id (λ b s. record blank { has_id = b; id = s })
          (λ rest. refl))
        (Runs-append
          (text_entry-Runs iv.has_src "src" iv.src (λ b s. record with_id { has_src = b; src = s })
            (λ rest. refl))
          (Runs.next "onDone" (print_transitions iv.on_done) with_done
            (λ rest. rw (parse_transition_list-Reads done_path iv.on_done rest))
            (Runs.next "onError" (print_transitions iv.on_error) (place_invoke path iv)
              (λ rest. rw (parse_transition_list-Reads error_path iv.on_error rest)) Runs.done))))

pub parse_invokes-Reads :
    (path : String) (ivs : List DtoInvoke)
    → Reads
        (parse_invokes path)
        (print_array (print_all print_invoke ivs))
        (place_all place_invoke path 0 ivs)
unfolding parse_invokes
parse_invokes-Reads path ivs =
    read_array-Reads path (λ i. parse_invoke (index_path path i))
      (print_all-Elements parse_invoke invoke_entries place_invoke parse_invoke-Reads path 0 ivs)
