-- ===== src/Schema/Parse/Decodes.antt =====
-- The decoding of whole values ends within its fuel.
use statesman.Base.{◌≡◌, refl, ℕ, zero, suc, ◌+◌, ◌*◌, ◌<◌, String, false, [], ◌∷◌, length, arith}
use statesman.Json.{Json, Items, Fields, null, boolean, number, text, array, object}
use statesman.Schema.{Rule, Result, ok, err, ◌>>=◌, invalid_params, invalid_value}
use statesman.Schema.Tokens.{
  Token, Tokens, open_object, close_object, open_array, close_array, delim, string, numeral, truth,
  broken, read_value, read_elements, read_entries, enter_field, decode, skip_value, read_params,
  params_of,
}
use statesman.Schema.Parse.Ends.{is_exhausted, Ends, Takes, Ends-bind, Takes-bind}

-- The step over one element, from what the two calls below it do.
module _ (f : ℕ) (path : String) (bad : Rule)
    (values : (ts : Tokens) → 2 * length ts < f → Takes (length ts) (read_value f path bad ts))
    (elements : (ts : Tokens)
      → 2 * length ts + 1 < f
      → Ends (length ts) (read_elements f path bad ts))
    (entries : (ts : Tokens)
      → 2 * length ts + 1 < f
      → Ends (length ts) (read_entries f path bad ts)) where
  element-Ends :
      (ts : Tokens)
      → 2 * length ts < f
      → Ends (length ts) (
          read_value f path bad ts >>= λ (v, after_value).
          read_elements f path bad after_value >>= λ (items, rest). ok (Items.cons v items, rest))
  element-Ends ts l =
      Takes-bind (length ts) (length ts) (read_value f path bad ts) _ (values ts l) (λ v ts₁ l₁.
        Ends-bind (length ts₁) (length ts) (read_elements f path bad ts₁) _
          (elements ts₁ (omega arith)) (λ items ts₂ l₂. omega arith))

  entry-Ends :
      (k : String) (ts : Tokens)
      → 2 * length ts < f
      → Ends (suc (length ts)) (
          read_value f path bad ts >>= λ (v, after_value).
          read_entries f path bad after_value >>= λ (fs, rest). ok (enter_field k v fs, rest))
  entry-Ends k ts l =
      Takes-bind (length ts) (suc (length ts)) (read_value f path bad ts) _ (values ts l)
        (λ v ts₁ l₁.
          Ends-bind (length ts₁) (suc (length ts)) (read_entries f path bad ts₁) _
            (entries ts₁ (omega arith)) (λ fs ts₂ l₂. omega arith))

  array-Takes :
      (ts : Tokens)
      → 2 * length ts + 1 < f
      → Takes
          (suc (length ts))
          (read_elements f path bad ts >>= λ (items, rest). ok (array items, rest))
  array-Takes ts l = at (read_elements f path bad ts) (elements ts l)
    where
      at :
          (r : Result (Items × Tokens))
          → Ends (length ts) r
          → Takes (suc (length ts)) (r >>= λ (items, rest). ok (array items, rest))
      at (ok (items, rest)) e = omega arith
      at (err x) e = e

  object-Takes :
      (ts : Tokens)
      → 2 * length ts + 1 < f
      → Takes (suc (length ts)) (read_entries f path bad ts >>= λ (fs, rest). ok (object fs, rest))
  object-Takes ts l = at (read_entries f path bad ts) (entries ts l)
    where
      at :
          (r : Result (Fields × Tokens))
          → Ends (length ts) r
          → Takes (suc (length ts)) (r >>= λ (fs, rest). ok (object fs, rest))
      at (ok (fs, rest)) e = omega arith
      at (err x) e = e

  value_step :
      is_exhausted bad ≡ false
      → (ts : Tokens) → 2 * length ts < suc f
      → Takes (length ts) (read_value (suc f) path bad ts)
  unfolding read_value
  value_step q [] l = q
  value_step q (Token.nil ∷ ts) l = omega arith
  value_step q (truth b ∷ ts) l = omega arith
  value_step q (numeral n ∷ ts) l = omega arith
  value_step q (string s ∷ ts) l = omega arith
  value_step q (broken ∷ ts) l = q
  value_step q (delim close_array ∷ ts) l = q
  value_step q (delim close_object ∷ ts) l = q
  value_step q (delim open_array ∷ ts) l = array-Takes ts (omega arith)
  value_step q (delim open_object ∷ ts) l = object-Takes ts (omega arith)

  elements_step :
      (ts : Tokens)
      → 2 * length ts + 1 < suc f
      → Ends (length ts) (read_elements (suc f) path bad ts)
  unfolding read_value
  elements_step (delim close_array ∷ ts) l = omega arith
  elements_step [] l = element-Ends [] (omega arith)
  elements_step (Token.nil ∷ ts) l = element-Ends (Token.nil ∷ ts) (omega arith)
  elements_step (truth b ∷ ts) l = element-Ends (truth b ∷ ts) (omega arith)
  elements_step (numeral b ∷ ts) l = element-Ends (numeral b ∷ ts) (omega arith)
  elements_step (string b ∷ ts) l = element-Ends (string b ∷ ts) (omega arith)
  elements_step (broken ∷ ts) l = element-Ends (broken ∷ ts) (omega arith)
  elements_step (delim close_object ∷ ts) l = element-Ends (delim close_object ∷ ts) (omega arith)
  elements_step (delim open_array ∷ ts) l = element-Ends (delim open_array ∷ ts) (omega arith)
  elements_step (delim open_object ∷ ts) l = element-Ends (delim open_object ∷ ts) (omega arith)

  entries_step :
      is_exhausted bad ≡ false
      → (ts : Tokens) → 2 * length ts + 1 < suc f
      → Ends (length ts) (read_entries (suc f) path bad ts)
  unfolding read_value
  entries_step q (delim close_object ∷ ts) l = omega arith
  entries_step q (string k ∷ ts) l = entry-Ends k ts (omega arith)
  entries_step q [] l = q
  entries_step q (Token.nil ∷ ts) l = q
  entries_step q (truth b ∷ ts) l = q
  entries_step q (numeral b ∷ ts) l = q
  entries_step q (broken ∷ ts) l = q
  entries_step q (delim open_array ∷ ts) l = q
  entries_step q (delim open_object ∷ ts) l = q
  entries_step q (delim close_array ∷ ts) l = q

mutual
  read_value-Takes :
      (f : ℕ) (path : String) (bad : Rule)
      → is_exhausted bad ≡ false
      → (ts : Tokens) → 2 * length ts < f
      → Takes (length ts) (read_value f path bad ts)
  read_value-Takes zero path bad q ts l = absurd (omega arith)
  read_value-Takes (suc f) path bad q ts l =
      value_step f path bad (read_value-Takes f path bad q) (read_elements-Ends f path bad q)
        (read_entries-Ends f path bad q) q ts l

  read_elements-Ends :
      (f : ℕ) (path : String) (bad : Rule)
      → is_exhausted bad ≡ false
      → (ts : Tokens) → 2 * length ts + 1 < f
      → Ends (length ts) (read_elements f path bad ts)
  read_elements-Ends zero path bad q ts l = absurd (omega arith)
  read_elements-Ends (suc f) path bad q ts l =
      elements_step f path bad (read_value-Takes f path bad q) (read_elements-Ends f path bad q)
        (read_entries-Ends f path bad q) ts l

  read_entries-Ends :
      (f : ℕ) (path : String) (bad : Rule)
      → is_exhausted bad ≡ false
      → (ts : Tokens) → 2 * length ts + 1 < f
      → Ends (length ts) (read_entries f path bad ts)
  read_entries-Ends zero path bad q ts l = absurd (omega arith)
  read_entries-Ends (suc f) path bad q ts l =
      entries_step f path bad (read_value-Takes f path bad q) (read_elements-Ends f path bad q)
        (read_entries-Ends f path bad q) q ts l

decode-Takes :
    (path : String) (bad : Rule)
    → is_exhausted bad ≡ false
    → (ts : Tokens) → Takes (length ts) (decode path bad ts)
unfolding decode
decode-Takes path bad q ts = read_value-Takes (suc (2 * length ts)) path bad q ts (omega arith)

pub skip_value-Ends : (path : String) (ts : Tokens) → Ends (length ts) (skip_value path ts)
unfolding skip_value
skip_value-Ends path ts =
    Takes-bind (length ts) (length ts) (decode path invalid_value ts) _
      (decode-Takes path invalid_value refl ts) (λ v ts₁ l. omega arith)

pub read_params-Ends : (path : String) (ts : Tokens) → Ends (length ts) (read_params path ts)
unfolding read_params
read_params-Ends path ts =
    Takes-bind (length ts) (length ts) (decode path invalid_params ts) _
      (decode-Takes path invalid_params refl ts) (λ v ts₁ l. by_value v ts₁ l)
  where
    by_value :
        (v : Json) (ts₁ : Tokens)
        → length ts₁ < length ts
        → Ends (length ts) (params_of path v >>= λ fields. ok (fields, ts₁))
    by_value null ts₁ l = omega arith
    by_value (object fs) ts₁ l = omega arith
    by_value (boolean b) ts₁ l = refl
    by_value (number b) ts₁ l = refl
    by_value (text b) ts₁ l = refl
    by_value (array b) ts₁ l = refl
