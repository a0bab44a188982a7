-- ===== src/Naming.antt =====
-- The names of generated code (internal/codegen/naming.go): an identifier of the chart becomes one
-- of Go, and two of them must not become the same.
--
-- The tables of `unicode` and the keywords of `go/token` are parameters.
pub mod Collisions
use Prim.Native.Char.{Char, code}
use Prim.Native.String.{String}
use statesman.Base.{
  ℕ, ◌≡◌, refl, sym, ap, ◌∙◌, Bool, true, false, not, ◌&&◌, ◌||◌, ◌==◌, Option, none, some, List,
  [], ◌∷◌, All, if◌then◌else◌, str_eq, str_append, eq_iff, Bool-cases, Option-cases, inl, inr,
  arith,
}
use statesman.Definition.{find_id}

pub record Unicode : Type 0 where
  pub is_upper : Char → Bool
  pub is_lower : Char → Bool
  pub is_digit : Char → Bool
  pub is_letter : Char → Bool
  pub to_upper : Char → Char
  pub to_lower : Char → Char
  pub is_keyword : String → Bool

-- The errors of the file, in place of their texts.
pub data NameError : Type 0 where
  empty_identifier : String → NameError
  no_letter_first : String → String → NameError
  go_keyword : String → String → NameError
  same_identifier : String → String → String → NameError

pub data Named : Type 0 where
  named : String → Named
  refused : NameError → Named

abbrev is_separator : Char → Bool
is_separator r = code r == b'_' || code r == b'-' || code r == b'.' || code r == b' '

abbrev flush : String → List String → List String
flush String.[] words = words
flush (String.◌∷◌ r cur) words = String.◌∷◌ r cur ∷ words

abbrev append_rune : String → Char → String
append_rune cur r = str_append cur (String.◌∷◌ r String.[])

-- `strings.CutPrefix`
unfoldable cut_prefix : String → String → Option String
cut_prefix s String.[] = some s
cut_prefix String.[] (String.◌∷◌ p prefix) = none
cut_prefix (String.◌∷◌ r s) (String.◌∷◌ p prefix) =
    let rest = cut_prefix s prefix in if code r == code p then rest else none

module _ (u : Unicode) where
  -- The loop of `splitWords`: the words from here on, with the word read so far.
  unfoldable split_from : String → String → Bool → List String
  split_from String.[] cur prev_lower_or_digit = flush cur []
  split_from (String.◌∷◌ r s) cur prev_lower_or_digit =
      let lower_or_digit = u.is_lower r || u.is_digit r in
      let apart = flush cur (split_from s "" false) in
      let boundary = flush cur (split_from s (String.◌∷◌ r String.[]) lower_or_digit) in
      let onward = split_from s (append_rune cur r) lower_or_digit in
      if is_separator r
      then apart
      else if u.is_upper r && prev_lower_or_digit
      then boundary
      else onward

  unfoldable split_words : String → List String
  unfolding split_from
  split_words s = split_from s "" false

  unfoldable lower_all : String → String
  lower_all String.[] = String.[]
  lower_all (String.◌∷◌ r s) = String.◌∷◌ (u.to_lower r) (lower_all s)

  abbrev upper_first : String → String
  upper_first String.[] = String.[]
  upper_first (String.◌∷◌ r s) = String.◌∷◌ (u.to_upper r) s

  unfoldable capitalize_word : String → String
  unfolding lower_all
  capitalize_word w = upper_first (lower_all w)

  unfoldable join_words : List String → String
  unfolding capitalize_word
  join_words [] = ""
  join_words (w ∷ ws) = str_append (capitalize_word w) (join_words ws)

  unfoldable normalize_name : String → String
  unfolding join_words split_words
  normalize_name json_name = join_words (split_words json_name)

  abbrev starts_identifier : Char → Bool
  starts_identifier r = u.is_letter r || code r == b'_'

  -- `ValidateIdent`: the error, or none.
  unfoldable validate_ident : String → String → Option NameError
  validate_ident json_name String.[] = some (empty_identifier json_name)
  validate_ident json_name (String.◌∷◌ r s) =
      if not (starts_identifier r)
      then some (no_letter_first json_name (String.◌∷◌ r s))
      else if u.is_keyword (String.◌∷◌ r s)
      then some (go_keyword json_name (String.◌∷◌ r s))
      else none

  abbrev checked : String → String → Named
  checked json_name name = elim (validate_ident json_name name) [
    | none ↦ named name
    | some e ↦ refused e
  ]

  unfoldable pub go_ident : String → Named
  unfolding normalize_name validate_ident
  go_ident json_name = checked json_name (normalize_name json_name)

  unfoldable suffixed : String → String → String → Named
  unfolding normalize_name validate_ident
  suffixed descriptor base suffix = checked descriptor (str_append (normalize_name base) suffix)

  unfoldable event_go_name : String → Named
  unfolding suffixed go_ident cut_prefix
  event_go_name descriptor = elim (cut_prefix descriptor "done.invoke.") [
    | some rest ↦ suffixed descriptor rest "Done"
    | none ↦ elim (cut_prefix descriptor "error.invoke.") [
      | some rest ↦ suffixed descriptor rest "Error"
      | none ↦ elim (cut_prefix descriptor "done.state.") [
        | some rest ↦ suffixed descriptor rest "Done"
        | none ↦ go_ident descriptor
      ]
    ]
  ]

  -- The test of one name against the names that came before it, `seen`.
  abbrev pub collides : Option String → String → String → Option NameError
  collides none json_name name = none
  collides (some prev) json_name name =
      if str_eq prev json_name then none else some (same_identifier prev json_name name)

  abbrev pub or_first : Option NameError → Option NameError → Option NameError
  or_first none later = later
  or_first (some e) later = some e

  -- The loop of `CheckCollisions`.
  unfoldable pub check_from : List (String × String) → List String → Option NameError
  unfolding go_ident find_id
  check_from seen [] = none
  check_from seen (jn ∷ jns) =
      let onward = λ (name : String). check_from ((name, jn) ∷ seen) jns in
      elim (go_ident jn) [
        | refused e ↦ some e
        | named name ↦ or_first (collides (find_id name seen) jn name) (onward name)
      ]

  unfoldable pub check_collisions : List String → Option NameError
  unfolding check_from
  check_collisions json_names = check_from [] json_names
