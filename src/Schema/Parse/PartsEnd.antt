-- ===== src/Schema/Parse/PartsEnd.antt =====
-- The parsers of what stands below a state end: actions, guards, transitions, events and invokes.
use statesman.Base.{
  refl, ℕ, suc, ◌≤◌, String, Bool, true, false, List, [], ◌∷◌, length, arith, if◌then◌else◌, str_eq,
  ◌||◌,
}
use statesman.Schema.{DtoAction, DtoGuard, DtoTransition, DtoEvent, DtoInvoke, Result, ◌>>=◌}
use statesman.Schema.Tokens.{
  Token, Tokens, Parser, open_object, close_object, open_array, close_array, delim, string, numeral,
  truth, broken, key_path, index_path, expect_delim, read_string, read_params, skip_value,
  array_body,
}
use statesman.Schema.Parse.{
  action_field, blank_action, parse_action, parse_actions, guard_field, blank_guard, parse_guard,
  transition_field, blank_transition, parse_transition_body, parse_transition,
  parse_transition_list, event_field, parse_events, invoke_field, blank_invoke, parse_invoke,
  parse_invokes,
}
use statesman.Schema.Parse.Ends.{
  Ends, Bounded, TakesBelow, Ends-bind, Takes-bind-Takes, Ends-of_Takes, Takes-of_Ends, Ends-mono,
  expect_delim-Takes, read_string-Takes, object_body-Bounded, read_object-TakesBelow,
  array_body-Bounded, read_array-Bounded,
}
use statesman.Schema.Parse.Decodes.{skip_value-Ends, read_params-Ends}

pub read_string-Ends : (path : String) (ts : Tokens) → Ends (length ts) (read_string path ts)
read_string-Ends path ts =
    Ends-of_Takes (length ts) (read_string path ts) (read_string-Takes path ts)

pub through :
    {A B : Type 0} (k : ℕ) (r : Result (A × Tokens)) (f : A × Tokens → Result (B × Tokens))
    → Ends k r
    → ((a : A) (ts : Tokens) → length ts ≤ k → Ends k (f (a, ts)))
    → Ends k (r >>= f)
through k r f e g = Ends-bind k k r f e g

-- `Bounded`, closed up so that a goal shows its parser.
pub record IsBounded {A : Type 0} (n : ℕ) (p : Parser A) : Type 0 where
  pub at : Bounded n p

pub either :
    {A : Type 0} (n : ℕ) (b : Bool) (p q : Parser A)
    → IsBounded n p
    → IsBounded n q
    → IsBounded n (if b then p else q)
either n true p q e f = e
either n false p q e f = f

-- A read whose value goes on without a further read.
pub reads :
    {A B : Type 0} (n : ℕ) (p : Parser A) (f : A × Tokens → Result (B × Tokens))
    → Bounded n p
    → ((a : A) (ts : Tokens) (k : ℕ) → length ts ≤ k → Ends k (f (a, ts)))
    → IsBounded n (λ ts. p ts >>= f)
reads n p f e g = record {
  at = λ ts l. through (length ts) (p ts) f (e ts l) (λ a ts₁ m. g a ts₁ (length ts) m);
}

-- What takes below more tokens does so below fewer.
pub weaken : {A : Type 0} (n : ℕ) (p : Parser A) → TakesBelow (suc n) p → TakesBelow n p
weaken n p t = λ ts l. t ts (omega arith)

pub Bounded-of_Takes : {A : Type 0} (n : ℕ) (p : Parser A) → TakesBelow n p → Bounded n p
Bounded-of_Takes n p t = λ ts l. Ends-of_Takes (length ts) (p ts) (t ts l)

action_field-IsBounded :
    (n : ℕ) (path key : String) (a : DtoAction) → IsBounded n (action_field path key a)
unfolding action_field
action_field-IsBounded n path key a =
    either n (str_eq key "type") _ _
      (reads n (read_string (key_path path key)) _ (λ ts l. read_string-Ends (key_path path key) ts)
        (λ x ts k m. m))
      (either n (str_eq key "params") _ _
        (reads n (read_params (key_path path key)) _
          (λ ts l. read_params-Ends (key_path path key) ts) (λ x ts k m. m))
        (record { at = λ ts l. refl }))

parse_action-TakesBelow : (n : ℕ) (path : String) → TakesBelow n (parse_action path)
unfolding parse_action
parse_action-TakesBelow n path = weaken n (parse_action path) (
    read_object-TakesBelow n path (action_field path)
      (λ key a. (action_field-IsBounded n path key a).at) (blank_action path))

pub parse_actions-Bounded : (n : ℕ) (path : String) → Bounded n (parse_actions path)
unfolding parse_actions
parse_actions-Bounded n path =
    read_array-Bounded n path (λ i. parse_action (index_path path i))
      (λ i. parse_action-TakesBelow n (index_path path i))

guard_field-IsBounded :
    (n : ℕ) (path key : String) (a : DtoGuard) → IsBounded n (guard_field path key a)
unfolding guard_field
guard_field-IsBounded n path key a =
    either n (str_eq key "type") _ _
      (reads n (read_string (key_path path key)) _ (λ ts l. read_string-Ends (key_path path key) ts)
        (λ x ts k m. m))
      (either n (str_eq key "params") _ _
        (reads n (read_params (key_path path key)) _
          (λ ts l. read_params-Ends (key_path path key) ts) (λ x ts k m. m))
        (record { at = λ ts l. refl }))

parse_guard-TakesBelow : (n : ℕ) (path : String) → TakesBelow n (parse_guard path)
unfolding parse_guard
parse_guard-TakesBelow n path = weaken n (parse_guard path) (
    read_object-TakesBelow n path (guard_field path)
      (λ key a. (guard_field-IsBounded n path key a).at) (blank_guard path))

transition_field-IsBounded :
    (n : ℕ) (path key : String) (a : DtoTransition) → IsBounded n (transition_field path key a)
unfolding transition_field
transition_field-IsBounded n path key a =
    either n (str_eq key "target") _ _
      (reads n (read_string (key_path path key)) _ (λ ts l. read_string-Ends (key_path path key) ts)
        (λ x ts k m. m))
      (either n (str_eq key "actions") _ _
        (reads n (parse_actions (key_path path key)) _ (parse_actions-Bounded n (key_path path key))
          (λ x ts k m. m))
        (either n (str_eq key "guard") _ _
          (reads n (parse_guard (key_path path key)) _
            (Bounded-of_Takes n (parse_guard (key_path path key))
              (parse_guard-TakesBelow n (key_path path key)))
            (λ x ts k m. m))
          (either n (str_eq key "description" || str_eq key "meta") _ _
            (reads n (skip_value (key_path path key)) _
              (λ ts l. skip_value-Ends (key_path path key) ts) (λ x ts k m. m))
            (record { at = λ ts l. refl }))))

parse_transition_body-Bounded : (n : ℕ) (path : String) → Bounded n (parse_transition_body path)
unfolding parse_transition_body
parse_transition_body-Bounded n path =
    object_body-Bounded n path (transition_field path)
      (λ key a. (transition_field-IsBounded n path key a).at) (blank_transition path)

parse_transition-TakesBelow : (n : ℕ) (path : String) → TakesBelow n (parse_transition path)
unfolding parse_transition
parse_transition-TakesBelow n path ts l =
    Takes-bind-Takes (length ts) (length ts) (expect_delim path open_object ts) _
      (expect_delim-Takes path open_object ts)
      (λ u ts₁ l₁.
        Takes-of_Ends (length ts₁) (length ts) (parse_transition_body path ts₁) l₁
          (parse_transition_body-Bounded n path ts₁ (omega arith)))

pub parse_transition_list-Bounded : (n : ℕ) (path : String) → Bounded n (parse_transition_list path)
unfolding parse_transition_list
parse_transition_list-Bounded n path [] l = refl
parse_transition_list-Bounded n path (delim open_array ∷ ts) l =
    Ends-mono (length ts) (suc (length ts))
      (array_body path (λ i. parse_transition (index_path path i)) ts) (omega arith)
      (array_body-Bounded n path (λ i. parse_transition (index_path path i))
        (λ i. parse_transition-TakesBelow n (index_path path i)) ts (omega arith))
parse_transition_list-Bounded n path (delim open_object ∷ ts) l =
    Ends-bind (length ts) (suc (length ts)) (parse_transition_body path ts) _
      (parse_transition_body-Bounded n path ts (omega arith)) (λ tr ts₁ m. omega arith)
parse_transition_list-Bounded n path (delim close_array ∷ ts) l = refl
parse_transition_list-Bounded n path (delim close_object ∷ ts) l = refl
parse_transition_list-Bounded n path (string s ∷ ts) l = refl
parse_transition_list-Bounded n path (numeral s ∷ ts) l = refl
parse_transition_list-Bounded n path (truth b ∷ ts) l = refl
parse_transition_list-Bounded n path (Token.nil ∷ ts) l = refl
parse_transition_list-Bounded n path (broken ∷ ts) l = refl

event_field-IsBounded :
    (n : ℕ) (path key : String) (a : List DtoEvent) → IsBounded n (event_field path key a)
unfolding event_field
event_field-IsBounded n path key a =
    reads n (parse_transition_list (key_path path key)) _
      (parse_transition_list-Bounded n (key_path path key)) (λ x ts k m. m)

pub parse_events-Bounded : (n : ℕ) (path : String) → Bounded n (parse_events path)
unfolding parse_events
parse_events-Bounded n path = Bounded-of_Takes n (parse_events path) (
    weaken n (parse_events path) (
      read_object-TakesBelow n path (event_field path)
        (λ key a. (event_field-IsBounded n path key a).at) []))

invoke_field-IsBounded :
    (n : ℕ) (path key : String) (a : DtoInvoke) → IsBounded n (invoke_field path key a)
unfolding invoke_field
invoke_field-IsBounded n path key a =
    either n (str_eq key "id") _ _
      (reads n (read_string (key_path path key)) _ (λ ts l. read_string-Ends (key_path path key) ts)
        (λ x ts k m. m))
      (either n (str_eq key "src") _ _
        (reads n (read_string (key_path path key)) _
          (λ ts l. read_string-Ends (key_path path key) ts) (λ x ts k m. m))
        (either n (str_eq key "meta") _ _
          (reads n (skip_value (key_path path key)) _
            (λ ts l. skip_value-Ends (key_path path key) ts) (λ x ts k m. m))
          (either n (str_eq key "onDone") _ _
            (reads n (parse_transition_list (key_path path key)) _
              (parse_transition_list-Bounded n (key_path path key)) (λ x ts k m. m))
            (either n (str_eq key "onError") _ _
              (reads n (parse_transition_list (key_path path key)) _
                (parse_transition_list-Bounded n (key_path path key)) (λ x ts k m. m))
              (record { at = λ ts l. refl })))))

parse_invoke-TakesBelow : (n : ℕ) (path : String) → TakesBelow n (parse_invoke path)
unfolding parse_invoke
parse_invoke-TakesBelow n path = weaken n (parse_invoke path) (
    read_object-TakesBelow n path (invoke_field path)
      (λ key a. (invoke_field-IsBounded n path key a).at) (blank_invoke path))

pub parse_invokes-Bounded : (n : ℕ) (path : String) → Bounded n (parse_invokes path)
unfolding parse_invokes
parse_invokes-Bounded n path =
    read_array-Bounded n path (λ i. parse_invoke (index_path path i))
      (λ i. parse_invoke-TakesBelow n (index_path path i))
