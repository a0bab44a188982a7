-- ===== src/Schema/Parse/Values.antt =====
-- Values that are decoded whole: what is printed is read back.
use statesman.Base.{
  ◌≡◌, refl, ℕ, zero, suc, ◌*◌, ◌<◌, ◌≤◌, String, [], ◌∷◌, ◌++◌, length, length-append, arith,
}
use mathlib.Core.List.{append_assoc}
use statesman.Json.{Json, Items, Fields, null, boolean, number, text, array, object, end, field}
use statesman.Schema.{Rule, ok, ◌>>=◌, invalid_params}
use statesman.Schema.Tokens.{
  Tokens, close_object, close_array, delim, read_value, read_elements, read_entries, decode,
  read_params,
}
use statesman.Schema.Parse.Print.{
  print_value, print_items, print_fields, kept, kept_items, kept_fields,
}
use statesman.Schema.Parse.Loops.{Reads}

length-print_value : (v : Json) → 0 < length (print_value v)
length-print_value null = omega arith
length-print_value (boolean b) = omega arith
length-print_value (number n) = omega arith
length-print_value (text s) = omega arith
length-print_value (array items) = omega arith
length-print_value (object fs) = omega arith

-- A value does not close the array that it stands in.
elements_on_value :
    (f : ℕ) (path : String) (bad : Rule) (v : Json) (ts : Tokens)
    → read_elements (suc f) path bad (print_value v ++ ts) ≡ (
        read_value f path bad (print_value v ++ ts) >>= λ (v', after_value).
        read_elements f path bad after_value >>= λ (items, rest). ok (Items.cons v' items, rest))
unfolding read_value
elements_on_value f path bad null ts = refl
elements_on_value f path bad (boolean b) ts = refl
elements_on_value f path bad (number n) ts = refl
elements_on_value f path bad (text s) ts = refl
elements_on_value f path bad (array items) ts = refl
elements_on_value f path bad (object fs) ts = refl

mutual
  unfolding read_value

  read_value-kept :
      (f : ℕ) (path : String) (bad : Rule) (v : Json) (rest : Tokens)
      → 2 * length (print_value v) ≤ f
      → read_value f path bad (print_value v ++ rest) ≡ ok (kept v, rest)
  read_value-kept zero path bad v rest l = absurd (omega (arith, length-print_value v))
  read_value-kept (suc f) path bad null rest l = refl
  read_value-kept (suc f) path bad (boolean b) rest l = refl
  read_value-kept (suc f) path bad (number n) rest l = refl
  read_value-kept (suc f) path bad (text s) rest l = refl
  read_value-kept (suc f) path bad (array items) rest l =
      rw (append_assoc (print_items items) (delim close_array ∷ []) rest) (
        rw (
          read_elements-kept f path bad items rest
            (omega (arith, length-append (print_items items) (delim close_array ∷ [])))))
  read_value-kept (suc f) path bad (object fs) rest l =
      rw (append_assoc (print_fields fs) (delim close_object ∷ []) rest) (
        rw (
          read_entries-kept f path bad fs rest
            (omega (arith, length-append (print_fields fs) (delim close_object ∷ [])))))

  read_elements-kept :
      (f : ℕ) (path : String) (bad : Rule) (items : Items) (rest : Tokens)
      → 2 * length (print_items items) < f
      → read_elements f path bad (print_items items ++ delim close_array ∷ rest)
        ≡ ok (kept_items items, rest)
  read_elements-kept zero path bad items rest l = absurd (omega arith)
  read_elements-kept (suc f) path bad Items.nil rest l = refl
  read_elements-kept (suc f) path bad (Items.cons v items) rest l =
      let sizes = length-append (print_value v) (print_items items) in
      rw
        (
          append_assoc (print_value v) (print_items items) (delim close_array ∷ rest),
          elements_on_value f path bad v (print_items items ++ delim close_array ∷ rest),
          read_value-kept f path bad v (print_items items ++ delim close_array ∷ rest)
              (omega arith),
        )
        (rw (read_elements-kept f path bad items rest (omega (arith, length-print_value v))))

  read_entries-kept :
      (f : ℕ) (path : String) (bad : Rule) (fs : Fields) (rest : Tokens)
      → 2 * length (print_fields fs) < f
      → read_entries f path bad (print_fields fs ++ delim close_object ∷ rest)
        ≡ ok (kept_fields fs, rest)
  read_entries-kept zero path bad fs rest l = absurd (omega arith)
  read_entries-kept (suc f) path bad end rest l = refl
  read_entries-kept (suc f) path bad (field k v fs) rest l =
      let sizes = length-append (print_value v) (print_fields fs) in
      rw
        (
          append_assoc (print_value v) (print_fields fs) (delim close_object ∷ rest),
          read_value-kept f path bad v (print_fields fs ++ delim close_object ∷ rest) (omega arith),
        )
        (rw (read_entries-kept f path bad fs rest (omega (arith, length-print_value v))))

pub decode-Reads :
    (path : String) (bad : Rule) (v : Json) → Reads (decode path bad) (print_value v) (kept v)
unfolding decode
decode-Reads path bad v rest =
    read_value-kept (suc (2 * length (print_value v ++ rest))) path bad v rest
      (omega (arith, length-append (print_value v) rest))

pub read_params-Reads :
    (path : String) (fs : Fields)
    → Reads (read_params path) (print_value (object fs)) (kept_fields fs)
unfolding read_params
read_params-Reads path fs rest = rw (decode-Reads path invalid_params (object fs) rest)
