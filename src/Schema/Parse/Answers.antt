-- ===== src/Schema/Parse/Answers.antt =====
-- The parse stage answers for every list of tokens: no recursion of it uses up its fuel.
use statesman.Base.{
  ◌≡◌, ◌≢◌, refl, ℕ, zero, suc, String, Bool, true, false, [], ◌∷◌, length, arith, str_eq, ◌||◌,
}
use statesman.Schema.{DtoState, DtoChildren, Result, ok, err, fail, ◌>>=◌, exhausted}
use statesman.Schema.Tokens.{
  Token, Tokens, Parser, delim, string, numeral, truth, broken, key_path, read_string, skip_value,
}
use statesman.Schema.Parse.{
  parse_actions, parse_transition_list, parse_events, parse_invokes, StateSoFar, blank_state,
  child_field, parse_states, root_field, state_field, parse_state, finish, parse,
}
use statesman.Schema.Parse.Ends.{is_exhausted, Ends, Bounded, Ends-of_Takes, read_object-TakesBelow}
use statesman.Schema.Parse.Decodes.{skip_value-Ends}
use statesman.Schema.Parse.PartsEnd.{
  read_string-Ends, through, either, reads, weaken, Bounded-of_Takes, IsBounded,
  parse_actions-Bounded, parse_events-Bounded, parse_transition_list-Bounded, parse_invokes-Bounded,
}

root_field-Bounded :
    (n : ℕ) (root : Bool) (path : String) (st : StateSoFar) → Bounded n (root_field root path st)
unfolding root_field
root_field-Bounded n true path st ts l =
    through (length ts) _ _ (skip_value-Ends path ts) (λ x ts₁ m. m)
root_field-Bounded n false path st ts l = refl

state_field-IsBounded :
    (n : ℕ) (recurse : String → Parser DtoState) (path : String) (root : Bool) (key : String)
    (st : StateSoFar)
    → Bounded n (parse_states recurse (key_path path key))
    → IsBounded n (state_field recurse path root key st)
unfolding state_field
state_field-IsBounded n recurse path root key st states =
    either n (str_eq key "id") _ _
      (reads n (read_string (key_path path key)) _ (λ ts l. read_string-Ends (key_path path key) ts)
        (λ x ts k m. m))
      (either n (str_eq key "description") _ _
        (reads n (skip_value (key_path path key)) _ (λ ts l. skip_value-Ends (key_path path key) ts)
          (λ x ts k m. m))
        (either n (str_eq key "type") _ _
          (reads n (read_string (key_path path key)) _
            (λ ts l. read_string-Ends (key_path path key) ts) (λ x ts k m. m))
          (either n (str_eq key "target") _ _
            (reads n (read_string (key_path path key)) _
              (λ ts l. read_string-Ends (key_path path key) ts) (λ x ts k m. m))
            (either n (str_eq key "history") _ _
              (reads n (read_string (key_path path key)) _
                (λ ts l. read_string-Ends (key_path path key) ts) (λ x ts k m. m))
              (either n (str_eq key "initial") _ _
                (reads n (read_string (key_path path key)) _
                  (λ ts l. read_string-Ends (key_path path key) ts) (λ x ts k m. m))
                (either n (str_eq key "entry") _ _
                  (reads n (parse_actions (key_path path key)) _
                    (parse_actions-Bounded n (key_path path key)) (λ x ts k m. m))
                  (either n (str_eq key "exit") _ _
                    (reads n (parse_actions (key_path path key)) _
                      (parse_actions-Bounded n (key_path path key)) (λ x ts k m. m))
                    (either n (str_eq key "on") _ _
                      (reads n (parse_events (key_path path key)) _
                        (parse_events-Bounded n (key_path path key)) (λ x ts k m. m))
                      (either n (str_eq key "after") _ _
                        (reads n (parse_events (key_path path key)) _
                          (parse_events-Bounded n (key_path path key)) (λ x ts k m. m))
                        (either n (str_eq key "always") _ _
                          (reads n (parse_transition_list (key_path path key)) _
                            (parse_transition_list-Bounded n (key_path path key)) (λ x ts k m. m))
                          (either n (str_eq key "invoke") _ _
                            (reads n (parse_invokes (key_path path key)) _
                              (parse_invokes-Bounded n (key_path path key)) (λ x ts k m. m))
                            (either n (str_eq key "meta") _ _
                              (reads n (skip_value (key_path path key)) _
                                (λ ts l. skip_value-Ends (key_path path key) ts) (λ x ts k m. m))
                              (either n (str_eq key "states") _ _
                                (reads n (parse_states recurse (key_path path key)) _ states
                                  (λ x ts k m. m))
                                (either n (str_eq key "version" || str_eq key "$schema") _ _
                                  (record { at = root_field-Bounded n root (key_path path key) st })
                                  (record { at = λ ts l. refl })))))))))))))))

-- A level of states, from the one below.
parse_states-Bounded :
    (n : ℕ) (recurse : String → Parser DtoState) (path : String)
    → ((p : String) → Bounded n (recurse p))
    → Bounded n (parse_states recurse path)
unfolding parse_states child_field
parse_states-Bounded n recurse path bounded = Bounded-of_Takes n (parse_states recurse path) (
    weaken n (parse_states recurse path) (
      read_object-TakesBelow n path (child_field recurse path)
        (λ key out ts l. through (length ts) _ _ (bounded (key_path path key) ts l) (λ x ts₁ m. m))
        DtoChildren.nil))

parse_state-Bounded : (f : ℕ) (path : String) (root : Bool) → Bounded f (parse_state f path root)
unfolding parse_state
parse_state-Bounded zero path root ts l = absurd (omega arith)
parse_state-Bounded (suc f) path root ts l =
    let below = λ (p : String). parse_state f p false in
    through (length ts) _ _
      (Ends-of_Takes (length ts) _ (
        read_object-TakesBelow f path (state_field below path root)
          (λ key st.
            (state_field-IsBounded f below path root key st (
              parse_states-Bounded f below (key_path path key)
                (λ p. parse_state-Bounded f p false))).at)
          (blank_state path) ts l))
      (λ x ts₁ m. m)

abbrev Answered : {A : Type 0} → Result A → Type 0
Answered (ok a) = Unit
Answered (err e) = is_exhausted e.rule ≡ false

finish-Answered : (root : DtoState) (ts : Tokens) → Answered (finish root ts)
unfolding finish
finish-Answered root [] = tt
finish-Answered root (broken ∷ ts) = refl
finish-Answered root (delim d ∷ ts) = refl
finish-Answered root (string s ∷ ts) = refl
finish-Answered root (numeral s ∷ ts) = refl
finish-Answered root (truth b ∷ ts) = refl
finish-Answered root (Token.nil ∷ ts) = refl

finish_after :
    (k : ℕ) (r : Result (DtoState × Tokens))
    → Ends k r
    → Answered (r >>= λ (root, rest). finish root rest)
finish_after k (ok (root, rest)) e = finish-Answered root rest
finish_after k (err x) e = e

parse-Answered : (ts : Tokens) → Answered (parse ts)
unfolding parse
parse-Answered ts =
    finish_after (length ts) (parse_state (suc (length ts)) "$" true ts)
      (parse_state-Bounded (suc (length ts)) "$" true ts (omega arith))

not_exhausted : (r : Result DtoState) (path : String) → Answered r → r ≢ fail path exhausted
not_exhausted (ok a) path answered e = cc
not_exhausted (err x) path answered e = cc (answered, e)

-- Whatever the tokens, the parse stage answers with a tree or an error of the code: its recursion
-- does not use up its fuel.
pub parse-answers : (ts : Tokens) (path : String) → parse ts ≢ fail path exhausted
parse-answers ts path = not_exhausted (parse ts) path (parse-Answered ts)
