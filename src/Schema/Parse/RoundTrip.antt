-- ===== src/Schema/Parse/RoundTrip.antt =====
-- Whole documents: what is printed for a tree is read back as that tree.
use statesman.Base.{
  ◌≡◌, refl, ap, ℕ, zero, suc, ◌<◌, ◌≤◌, String, Bool, true, false, [], ◌∷◌, ◌++◌, length,
  length-append, arith,
}
use mathlib.Core.List.{append-nil}
use statesman.Schema.{DtoFields, DtoState, DtoChildren, state, cons, ok}
use statesman.Schema.Tokens.{Parser, key_path, read_string, delim, close_object}
use statesman.Schema.Parse.{
  StateSoFar, blank_state, add_child, child_field, parse_states, state_field, parse_state, finish,
  parse,
}
use statesman.Schema.Parse.Print.{
  Entries, flatten, kept_text, print_all, print_actions, print_transitions, event_entries,
  print_invoke, print_object, print_array, text_fields, list_fields, place_fields, states_entry,
  print_state, child_entries, kept_children, place_state, place_children,
}
use statesman.Schema.Parse.Loops.{Reads, Runs, Runs-append, read_object-Reads}
use statesman.Schema.Parse.Parts.{
  text_entry-Runs, parse_actions-Reads, parse_transition_list-Reads, parse_events-Reads,
  parse_invokes-Reads,
}

-- The placed fields of a state without the lists, and then without its children.
abbrev texts_only : String → DtoFields → DtoFields
texts_only path d = record (blank_state path).0 {
  has_id = d.has_id;
  id = kept_text d.has_id d.id;
  has_type = d.has_type;
  typ = kept_text d.has_type d.typ;
  has_target = d.has_target;
  target = kept_text d.has_target d.target;
  has_history = d.has_history;
  history = kept_text d.has_history d.history;
  has_initial = d.has_initial;
  initial = kept_text d.has_initial d.initial;
}

abbrev pub no_states : String → DtoFields → DtoFields
no_states path d = record (place_fields path d) { has_states = false }

module _ (recurse : String → Parser DtoState) (path : String) (root : Bool) (d : DtoFields) where
  abbrev stage : (DtoFields → DtoFields) → StateSoFar
  stage f = (f (blank_state path).0, DtoChildren.nil)

  pub text_fields-Runs :
      Runs
        (state_field recurse path root)
        (blank_state path)
        (text_fields d)
        (texts_only path d, DtoChildren.nil)
  unfolding state_field read_string
  text_fields-Runs =
      let d₀ = (blank_state path).0 in
      let d₁ = record d₀ { has_id = d.has_id; id = kept_text d.has_id d.id } in
      let d₂ = record d₁ { has_type = d.has_type; typ = kept_text d.has_type d.typ } in
      let d₃ = record d₂ { has_target = d.has_target; target = kept_text d.has_target d.target } in
      let d₄ = record d₃ {
        has_history = d.has_history;
        history = kept_text d.has_history d.history;
      } in
      Runs-append
        (text_entry-Runs d.has_id "id" d.id
          (λ b s. (record d₀ { has_id = b; id = s }, DtoChildren.nil)) (λ rest. refl))
        (Runs-append
          (text_entry-Runs d.has_type "type" d.typ
            (λ b s. (record d₁ { has_type = b; typ = s }, DtoChildren.nil)) (λ rest. refl))
          (Runs-append
            (text_entry-Runs d.has_target "target" d.target
              (λ b s. (record d₂ { has_target = b; target = s }, DtoChildren.nil)) (λ rest. refl))
            (Runs-append
              (text_entry-Runs d.has_history "history" d.history
                (λ b s. (record d₃ { has_history = b; history = s }, DtoChildren.nil))
                (λ rest. refl))
              (text_entry-Runs d.has_initial "initial" d.initial
                (λ b s. (record d₄ { has_initial = b; initial = s }, DtoChildren.nil))
                (λ rest. refl)))))

  pub list_fields-Runs :
      Runs
        (state_field recurse path root)
        (texts_only path d, DtoChildren.nil)
        (list_fields d)
        (no_states path d, DtoChildren.nil)
  unfolding state_field
  list_fields-Runs =
      let p = no_states path d in
      let d₀ = texts_only path d in
      let d₁ = record d₀ { entry = p.entry } in
      let d₂ = record d₁ { exit = p.exit } in
      let d₃ = record d₂ { on = p.on } in
      let d₄ = record d₃ { after = p.after } in
      let d₅ = record d₄ { always = p.always } in
      Runs.next "entry" (print_actions d.entry) (d₁, DtoChildren.nil)
        (λ rest. rw (parse_actions-Reads (key_path path "entry") d.entry rest))
        (Runs.next "exit" (print_actions d.exit) (d₂, DtoChildren.nil)
          (λ rest. rw (parse_actions-Reads (key_path path "exit") d.exit rest))
          (Runs.next "on" (print_object (event_entries d.on)) (d₃, DtoChildren.nil)
            (λ rest. rw (parse_events-Reads (key_path path "on") d.on rest))
            (Runs.next "after" (print_object (event_entries d.after)) (d₄, DtoChildren.nil)
              (λ rest. rw (parse_events-Reads (key_path path "after") d.after rest))
              (Runs.next "always" (print_transitions d.always) (d₅, DtoChildren.nil)
                (λ rest. rw (parse_transition_list-Reads (key_path path "always") d.always rest))
                (Runs.next "invoke" (print_array (print_all print_invoke d.invoke))
                  (p, DtoChildren.nil)
                  (λ rest. rw (parse_invokes-Reads (key_path path "invoke") d.invoke rest))
                  Runs.done)))))

  states_entry-Runs :
      (cs : DtoChildren) (b : Bool)
      → (b ≡ true
          → Reads
              (parse_states recurse (key_path path "states"))
              (print_object (child_entries cs))
              (place_children (key_path path "states") cs))
      → Runs
          (state_field recurse path root)
          (no_states path d, DtoChildren.nil)
          (states_entry b (child_entries cs))
          (
            record (place_fields path d) { has_states = b },
            kept_children b (place_children (key_path path "states") cs),
          )
  unfolding state_field
  states_entry-Runs cs true reads =
      Runs.next "states" (print_object (child_entries cs)) _ (λ rest. rw (reads refl rest))
        Runs.done
  states_entry-Runs cs false reads = Runs.done

  state-Runs :
      (cs : DtoChildren)
      → (d.has_states ≡ true
          → Reads
              (parse_states recurse (key_path path "states"))
              (print_object (child_entries cs))
              (place_children (key_path path "states") cs))
      → Runs
          (state_field recurse path root)
          (blank_state path)
          (text_fields d ++ (list_fields d ++ states_entry d.has_states (child_entries cs)))
          (
            place_fields path d,
            kept_children d.has_states (place_children (key_path path "states") cs),
          )
  state-Runs cs reads =
      Runs-append text_fields-Runs
        (Runs-append list_fields-Runs (states_entry-Runs cs d.has_states reads))

-- The children `out` with those of `cs` behind them.
abbrev behind : DtoChildren → DtoChildren → DtoChildren
behind DtoChildren.nil cs = cs
behind (cons k s out) cs = cons k s (behind out cs)

behind-add_child :
    (out cs : DtoChildren) (key : String) (st : DtoState)
    → behind (add_child key out st) cs ≡ behind out (cons key st cs)
behind-add_child DtoChildren.nil cs key st = refl
behind-add_child (cons k s out) cs key st = ap (cons k s) (behind-add_child out cs key st)

behind-nil : (out : DtoChildren) → behind out DtoChildren.nil ≡ out
behind-nil DtoChildren.nil = refl
behind-nil (cons k s out) = ap (cons k s) (behind-nil out)

length-flatten_last : (es fs : Entries) → length (flatten fs) ≤ length (flatten (es ++ fs))
length-flatten_last [] fs = omega arith
length-flatten_last ((k, ts) ∷ es) fs =
    omega (arith, length-append ts (flatten (es ++ fs)), length-flatten_last es fs)

length-states_entry :
    (b : Bool) (children : Entries)
    → b ≡ true
    → length (flatten children) < length (flatten (states_entry b children))
length-states_entry true children e = omega (
  arith,
  length-append (print_object children) [],
  length-append (flatten children) (delim close_object ∷ []),
)
length-states_entry false children e = cc

-- The children's part of a state's document is shorter than the document.
states_length :
    (es fs children : Entries) (b : Bool)
    → b ≡ true
    → length (flatten children) < length (print_object (es ++ (fs ++ states_entry b children)))
states_length es fs children b e = omega (
  arith,
  length-states_entry b children e,
  length-flatten_last fs (states_entry b children),
  length-flatten_last es (fs ++ states_entry b children),
  length-append (flatten (es ++ (fs ++ states_entry b children))) (delim close_object ∷ []),
)

mutual
  unfolding parse_state parse_states child_field

  state-Reads :
      (f : ℕ) (path : String) (root : Bool) (st : DtoState)
      → length (print_state st) < f
      → Reads (parse_state f path root) (print_state st) (place_state path st)
  state-Reads zero path root st l rest = absurd (omega arith)
  state-Reads (suc f) path root (state d cs) l rest = rw (
      read_object-Reads path (state_field (λ p. parse_state f p false) path root)
        (state-Runs (λ p. parse_state f p false) path root d cs
          (λ e.
            read_object-Reads (key_path path "states")
              (child_field (λ p. parse_state f p false) (key_path path "states"))
              (children-Runs f (key_path path "states") cs DtoChildren.nil (
                omega (
                  arith,
                  states_length (text_fields d) (list_fields d) (child_entries cs) d.has_states e,
                )))))
        rest)

  children-Runs :
      (f : ℕ) (path : String) (cs out : DtoChildren)
      → length (flatten (child_entries cs)) < f
      → Runs
          (child_field (λ p. parse_state f p false) path)
          out
          (child_entries cs)
          (behind out (place_children path cs))
  children-Runs f path DtoChildren.nil out l = rw (behind-nil out) Runs.done
  children-Runs f path (cons key st cs) out l =
      let sizes = length-append (print_state st) (flatten (child_entries cs)) in
      let placed = place_state (key_path path key) st in
      Runs.next key (print_state st) (add_child key out placed)
        (λ rest. rw (state-Reads f (key_path path key) false st (omega arith) rest))
        (rw (← behind-add_child out (place_children path cs) key placed)
          (children-Runs f path cs (add_child key out placed) (omega arith)))

-- The document printed for a tree is parsed to that tree, with the paths of its places, the texts
-- and the children whose flags are set, and of two parameters with one key the later.
pub parse-print_state : (st : DtoState) → parse (print_state st) ≡ ok (place_state "$" st)
unfolding parse finish
parse-print_state st =
    let whole = state-Reads (suc (length (print_state st))) "$" true st (omega arith) [] in
    rw (rw append-nil at whole)
