-- ===== src/Examples/Parsing.antt =====
-- The theorems on the parse stage, applied to small documents.
use statesman.Base.{◌≡◌, ◌≢◌, refl, true, false, some, [], ◌∷◌, inl}
use statesman.Json.{number, end, field}
use statesman.Schema.{
  DtoFields, DtoState, DtoChildren, state, cons, ok, fail, exhausted, unknown_field,
  root_only_field,
}
use statesman.Schema.Tokens.{delim, string, key_path, open_object, close_object}
use statesman.Schema.Parse.{blank_state, state_field, parse_state, parse}
use statesman.Schema.Parse.Print.{Entries, print_state, place_state}
use statesman.Schema.Parse.Loops.{Runs, next, done}
use statesman.Schema.Parse.RoundTrip.{parse-print_state}
use statesman.Schema.Parse.Answers.{parse-answers}
use statesman.Schema.Parse.Refuses.{field_step, opened, parse-unknown, parse_state-root_only}

abbrev blank_fields : DtoFields
blank_fields = (blank_state "").0

-- A state with an entry action, a transition and a timer.
abbrev green : DtoFields
green = record blank_fields {
  entry =
      record { path = ""; has_type = true; typ = "count"; params = field "by" (number "2") end }
      ∷ [];
  on =
      record {
        desc = "go";
        path = "";
        transitions =
            record {
              path = "";
              has_target = true;
              target = "red";
              actions = [];
              guard = some (record { path = ""; has_type = true; typ = "safe"; params = end });
            }
            ∷ [];
      }
      ∷ [];
}

abbrev lights : DtoFields
lights = record blank_fields {
  has_id = true;
  id = "lights";
  has_initial = true;
  initial = "green";
  has_states = true;
}

abbrev lights_tree : DtoState
lights_tree = state lights (
    cons "green" (state green DtoChildren.nil)
      (cons "red" (state blank_fields DtoChildren.nil) DtoChildren.nil))

parse-print_state_example : parse (print_state lights_tree) ≡ ok (place_state "$" lights_tree)
parse-print_state_example = parse-print_state lights_tree

parse-answers_example : parse (delim open_object ∷ string "id" ∷ []) ≢ fail "$.id" exhausted
parse-answers_example = parse-answers (delim open_object ∷ string "id" ∷ []) "$.id"

-- `{"id": "lights", "states": {"red": {}}, "colour": …`
abbrev coloured : Entries
coloured =
    ("id", string "lights" ∷ [])
    ∷ (
      "states",
      delim open_object
          ∷ string "red"
          ∷ delim open_object
          ∷ delim close_object
          ∷ delim close_object
          ∷ [],
    )
    ∷ []

abbrev named : DtoFields
named = record (blank_state "$").0 { id = "lights"; has_id = true }

abbrev one_child : DtoChildren
one_child = cons "red" (state (blank_state "$.states.red").0 DtoChildren.nil) DtoChildren.nil

coloured-Runs :
    Runs
      (field_step 11 "$" true)
      (blank_state "$")
      coloured
      (record named { has_states = true }, one_child)
unfolding state_field parse_state statesman.Schema.Tokens.read_string
coloured-Runs =
    next {a = blank_state "$"} "id" (string "lights" ∷ []) (named, DtoChildren.nil) (λ rest. refl)
      (next {a = (named, DtoChildren.nil)} "states"
        (delim open_object
          ∷ string "red"
          ∷ delim open_object
          ∷ delim close_object
          ∷ delim close_object
          ∷ [])
        (record named { has_states = true }, one_child) (λ rest. refl) done)

parse-unknown_example :
    parse (opened coloured "colour" (delim close_object ∷ []))
    ≡ fail (key_path "$" "colour") unknown_field
parse-unknown_example = parse-unknown "colour" (delim close_object ∷ []) coloured-Runs refl

described-Runs :
    Runs
      (field_step 0 "$.states.green" false)
      (blank_state "$.states.green")
      (("description", string "on" ∷ []) ∷ [])
      (blank_state "$.states.green")
unfolding state_field
described-Runs =
    next "description" (string "on" ∷ []) (blank_state "$.states.green") (λ rest. refl) done

parse_state-root_only_example :
    parse_state 1 "$.states.green" false
      (opened (("description", string "on" ∷ []) ∷ []) "version" (delim close_object ∷ []))
    ≡ fail (key_path "$.states.green" "version") root_only_field
parse_state-root_only_example =
    parse_state-root_only 0 "$.states.green" "version" (delim close_object ∷ []) described-Runs
      (inl refl)
