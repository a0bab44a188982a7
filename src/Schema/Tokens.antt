-- ===== src/Schema/Tokens.antt =====
-- The tokens of `json.Decoder` (encoding/json, with `UseNumber`) and the reads of schema/parse.go:
-- a decoder is the list of the tokens that it is still to give. Its limit of nesting for values that
-- are decoded whole, 10000 levels, is left out.
use statesman.Base.{
  ℕ, zero, suc, ◌*◌, ◌/◌, ◌%◌, String, Bool, true, false, List, [], ◌∷◌, ◌||◌, length, get_or,
  if◌then◌else◌, ltb, str_eq, str_append,
}
use statesman.Json.{Json, Items, Fields, null, boolean, number, text, array, object, end, field}
use statesman.Schema.{
  Rule, Result, ok, fail, ◌>>=◌, delimiter_expected, key_expected, string_expected, invalid_params,
  invalid_value, exhausted,
}

-- `json.Delim`
pub data Delim : Type 0 where
  open_object close_object open_array close_array : Delim

-- `broken` stands where the decoder reports a syntax error.
pub data Token : Type 0 where
  delim : Delim → Token
  string : String → Token
  numeral : String → Token
  truth : Bool → Token
  nil : Token
  broken : Token

abbrev pub Tokens : Type 0
Tokens = List Token

-- What reads an `A` off the decoder.
abbrev pub Parser : Type 0 → Type 0
Parser A = Tokens → Result (A × Tokens)

abbrev pub same_delim : Delim → Delim → Bool
same_delim open_object open_object = true
same_delim close_object close_object = true
same_delim open_array open_array = true
same_delim close_array close_array = true
same_delim _ _ = false

-- `dec.More`: something follows that does not close the array or object.
unfoldable pub more : Tokens → Bool
more [] = false
more (delim close_object ∷ ts) = false
more (delim close_array ∷ ts) = false
more (t ∷ ts) = true

unfoldable pub expect_delim : String → Delim → Parser (Unit {0})
expect_delim path d (delim e ∷ ts) =
    if same_delim e d then ok (tt, ts) else fail path delimiter_expected
expect_delim path d ts = fail path delimiter_expected

unfoldable pub read_key : String → Parser String
read_key path (string s ∷ ts) = ok (s, ts)
read_key path ts = fail path key_expected

unfoldable pub read_string : String → Parser String
read_string path (string s ∷ ts) = ok (s, ts)
read_string path ts = fail path string_expected

-- `fmt.Sprintf("%s[%d]", path, i)`
abbrev digit : ℕ → String
digit d = get_or ("0" ∷ "1" ∷ "2" ∷ "3" ∷ "4" ∷ "5" ∷ "6" ∷ "7" ∷ "8" ∷ "9" ∷ []) d ""

unfoldable decimal : ℕ → ℕ → String
decimal zero n = ""
decimal (suc f) n =
    let above = decimal f (n / 10) in
    if ltb n 10 then digit n else str_append above (digit (n % 10))

unfoldable pub index_path : String → ℕ → String
unfolding decimal
index_path path i = str_append path (str_append "[" (str_append (decimal (suc i) i) "]"))

-- `path + "." + key`
abbrev pub key_path : String → String → String
key_path path key = str_append (str_append path ".") key

-- The loop over the fields of an object, up to what closes it. Every round takes a token.
unfoldable pub read_fields : {A : Type 0} → ℕ → String → (String → A → Parser A) → A → Parser A
unfolding more read_key
read_fields zero path step a ts = fail path exhausted
read_fields (suc fuel) path step a ts =
    let rest = (do
      (key, after_key) ← read_key path ts
      (a', after_value) ← step key a after_key
      read_fields fuel path step a' after_value) in
    if more ts then rest else ok (a, ts)

-- The loop over the elements of an array.
unfoldable pub read_items : {A : Type 0} → ℕ → String → (ℕ → Parser A) → ℕ → Parser (List A)
unfolding more
read_items zero path item i ts = fail path exhausted
read_items (suc fuel) path item i ts =
    let rest = (do
      (a, after_item) ← item i ts
      (as', after_rest) ← read_items fuel path item (suc i) after_item
      ok (a ∷ as', after_rest)) in
    if more ts then rest else ok ([], ts)

-- An object behind its opening brace, and a whole one: each round of its loop takes a token.
unfoldable pub object_body : {A : Type 0} → String → (String → A → Parser A) → A → Parser A
unfolding read_fields expect_delim
object_body path step a ts = do
  (a', after_fields) ← read_fields (suc (length ts)) path step a ts
  (_, rest) ← expect_delim path close_object after_fields
  ok (a', rest)

unfoldable pub read_object : {A : Type 0} → String → (String → A → Parser A) → A → Parser A
unfolding object_body expect_delim
read_object path step a ts = do
  (_, body) ← expect_delim path open_object ts
  object_body path step a body

-- An array behind its opening bracket, and a whole one.
unfoldable pub array_body : {A : Type 0} → String → (ℕ → Parser A) → Parser (List A)
unfolding read_items expect_delim
array_body path item ts = do
  (as', after_items) ← read_items (suc (length ts)) path item 0 ts
  (_, rest) ← expect_delim path close_array after_items
  ok (as', rest)

unfoldable pub read_array : {A : Type 0} → String → (ℕ → Parser A) → Parser (List A)
unfolding array_body expect_delim
read_array path item ts = do (_, body) ← expect_delim path open_array ts; array_body path item body

-- A value that is decoded whole. Of two entries of a map with one key the later stays.
abbrev has_key : String → Fields → Bool
has_key k end = false
has_key k (field k' v fs) = str_eq k k' || has_key k fs

abbrev pub enter_field : String → Json → Fields → Fields
enter_field k v fs = if has_key k fs then fs else field k v fs

unfoldable mutual
  pub read_value : ℕ → String → Rule → Parser Json
  read_value zero path bad ts = fail path exhausted
  read_value (suc f) path bad (nil ∷ ts) = ok (null, ts)
  read_value (suc f) path bad (truth b ∷ ts) = ok (boolean b, ts)
  read_value (suc f) path bad (numeral n ∷ ts) = ok (number n, ts)
  read_value (suc f) path bad (string s ∷ ts) = ok (text s, ts)
  read_value (suc f) path bad (delim open_array ∷ ts) = do
    (items, rest) ← read_elements f path bad ts
    ok (array items, rest)
  read_value (suc f) path bad (delim open_object ∷ ts) = do
    (fields, rest) ← read_entries f path bad ts
    ok (object fields, rest)
  read_value (suc f) path bad ts = fail path bad

  pub read_elements : ℕ → String → Rule → Parser Items
  read_elements zero path bad ts = fail path exhausted
  read_elements (suc f) path bad (delim close_array ∷ ts) = ok (Items.nil, ts)
  read_elements (suc f) path bad ts = do
    (v, after_value) ← read_value f path bad ts
    (items, rest) ← read_elements f path bad after_value
    ok (Items.cons v items, rest)

  pub read_entries : ℕ → String → Rule → Parser Fields
  read_entries zero path bad ts = fail path exhausted
  read_entries (suc f) path bad (delim close_object ∷ ts) = ok (end, ts)
  read_entries (suc f) path bad (string k ∷ ts) = do
    (v, after_value) ← read_value f path bad ts
    (fields, rest) ← read_entries f path bad after_value
    ok (enter_field k v fields, rest)
  read_entries (suc f) path bad ts = fail path bad

-- A call for each token and, at the end of an array or object, one more.
unfoldable pub decode : String → Rule → Parser Json
unfolding read_value
decode path bad ts = read_value (suc (2 * length ts)) path bad ts

unfoldable pub skip_value : String → Parser (Unit {0})
unfolding decode
skip_value path ts = do (v, rest) ← decode path invalid_value ts; ok (tt, rest)

-- A map; `null` leaves it nil.
abbrev pub params_of : String → Json → Result Fields
params_of path null = ok end
params_of path (object fields) = ok fields
params_of path v = fail path invalid_params

unfoldable pub read_params : String → Parser Fields
unfolding decode
read_params path ts = do
  (v, rest) ← decode path invalid_params ts
  fields ← params_of path v
  ok (fields, rest)
