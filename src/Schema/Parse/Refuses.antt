-- ===== src/Schema/Parse/Refuses.antt =====
-- What the parse stage refuses: the fields that the format does not have.
use statesman.Base.{
  ◌≡◌, ℕ, zero, suc, String, Bool, true, false, List, [], ◌∷◌, ◌++◌, ◌||◌, length, arith, str_eq,
  any, ◌⊎◌, inl, inr,
}
use statesman.Schema.{DtoState, fail, unknown_field, root_only_field}
use statesman.Schema.Tokens.{Tokens, Parser, string, key_path, delim, open_object}
use statesman.Schema.Parse.{StateSoFar, blank_state, state_field, root_field, parse_state, parse}
use statesman.Schema.Parse.Print.{Entries, flatten}
use statesman.Schema.Parse.Loops.{Runs, object-refused}

-- The fields of a state, those of the root included.
abbrev pub state_keys : List String
state_keys =
    "id" ∷ "description" ∷ "type" ∷ "target" ∷ "history" ∷ "initial" ∷ "entry" ∷ "exit" ∷ "on"
    ∷ "after" ∷ "always" ∷ "invoke" ∷ "meta" ∷ "states" ∷ "version" ∷ "$schema" ∷ []

-- The keys from a place on.
abbrev keys_from : ℕ → List String → List String
keys_from zero ks = ks
keys_from (suc i) [] = []
keys_from (suc i) (k ∷ ks) = keys_from i ks

or_false : (a b : Bool) → (a || b) ≡ false → (a ≡ false) × (b ≡ false)
or_false a b e = ground arith

state_field-unknown :
    (recurse : String → Parser DtoState) (path : String) (root : Bool) (key : String)
    (st : StateSoFar) (ts : Tokens)
    → any (str_eq key) state_keys ≡ false
    → state_field recurse path root key st ts ≡ fail (key_path path key) unknown_field
unfolding state_field
state_field-unknown recurse path root key st ts e =
    let (e0, r0) = apart "id" 1 e in
    let (e1, r1) = apart "description" 2 r0 in
    let (e2, r2) = apart "type" 3 r1 in
    let (e3, r3) = apart "target" 4 r2 in
    let (e4, r4) = apart "history" 5 r3 in
    let (e5, r5) = apart "initial" 6 r4 in
    let (e6, r6) = apart "entry" 7 r5 in
    let (e7, r7) = apart "exit" 8 r6 in
    let (e8, r8) = apart "on" 9 r7 in
    let (e9, r9) = apart "after" 10 r8 in
    let (e10, r10) = apart "always" 11 r9 in
    let (e11, r11) = apart "invoke" 12 r10 in
    let (e12, r12) = apart "meta" 13 r11 in
    let (e13, r13) = apart "states" 14 r12 in
    let (e14, r14) = apart "version" 15 r13 in
    let (e15, r15) = apart "$schema" 16 r14 in
    rw (e0, e1, e2, e3, e4, e5, e6, e7, e8, e9, e10, e11, e12, e13, e14, e15)
  where
    apart :
        (k : String) (i : ℕ)
        → (str_eq key k || any (str_eq key) (keys_from i state_keys)) ≡ false
        → (str_eq key k ≡ false) × (any (str_eq key) (keys_from i state_keys) ≡ false)
    apart k i f = or_false (str_eq key k) (any (str_eq key) (keys_from i state_keys)) f

state_field-root_only :
    (recurse : String → Parser DtoState) (path : String) (key : String) (st : StateSoFar)
    (ts : Tokens)
    → (key ≡ "version") ⊎ (key ≡ "$schema")
    → state_field recurse path false key st ts ≡ fail (key_path path key) root_only_field
unfolding state_field root_field
state_field-root_only recurse path key st ts (inl e) = rw e
state_field-root_only recurse path key st ts (inr e) = rw e

-- What the parser of a state does with one of its fields, its children read with the given fuel.
abbrev pub field_step : ℕ → String → Bool → String → StateSoFar → Parser StateSoFar
field_step f path root = state_field (λ p. parse_state f p false) path root

-- A brace, the fields, then one more key.
abbrev pub opened : Entries → String → Tokens → Tokens
opened es key ts = delim open_object ∷ (flatten es ++ string key ∷ ts)

-- Behind any list of fields that the parser reads, the empty list included, a key of the root that
-- is none of the format's is refused with its path, whatever follows.
pub parse-unknown :
    {es : Entries} {read : StateSoFar} (key : String) (ts : Tokens)
    → Runs (field_step (length (opened es key ts)) "$" true) (blank_state "$") es read
    → any (str_eq key) state_keys ≡ false
    → parse (opened es key ts) ≡ fail (key_path "$" key) unknown_field
unfolding parse parse_state
parse-unknown {es} {read} key ts reads unknown =
    let f = length (opened es key ts) in
    rw (
      object-refused "$" (field_step f "$" true) reads key ts _
        (state_field-unknown (λ p. parse_state f p false) "$" true key read ts unknown))

-- Behind any list of fields that the parser reads in a state below the root, the keys of the root
-- are refused with their path.
pub parse_state-root_only :
    {es : Entries} {read : StateSoFar} (f : ℕ) (path key : String) (ts : Tokens)
    → Runs (field_step f path false) (blank_state path) es read
    → (key ≡ "version") ⊎ (key ≡ "$schema")
    → parse_state (suc f) path false (opened es key ts) ≡ fail (key_path path key) root_only_field
unfolding parse_state
parse_state-root_only {es} {read} f path key ts reads is = rw (
    object-refused path (field_step f path false) reads key ts _
      (state_field-root_only (λ p. parse_state f p false) path key read ts is))
