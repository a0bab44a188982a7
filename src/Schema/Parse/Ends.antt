-- ===== src/Schema/Parse/Ends.antt =====
-- The reads of a decoder end: a read leaves no more tokens than it is given, and its fuel, where
-- there is more of it than of tokens, is not used up.
use statesman.Base.{
  ◌≡◌, refl, ℕ, zero, suc, ◌<◌, ◌≤◌, String, Bool, true, false, [], ◌∷◌, length, arith,
  if◌then◌else◌,
}
use statesman.Schema.{Rule, Result, ok, err, fail, ◌>>=◌}
use statesman.Schema.Tokens.{
  Delim, Token, Tokens, Parser, open_object, close_object, open_array, close_array, same_delim,
  delim, string, numeral, truth, broken, more, expect_delim, read_key, read_string, read_fields,
  read_items, object_body, read_object, array_body, read_array,
}

abbrev pub is_exhausted : Rule → Bool
is_exhausted Rule.exhausted = true
is_exhausted _ = false

-- At most `k` tokens are left, or fewer; an error is not that of the fuel.
abbrev pub Ends : {A : Type 0} → ℕ → Result (A × Tokens) → Type 0
Ends k (ok (a, ts)) = length ts ≤ k
Ends k (err e) = is_exhausted e.rule ≡ false

abbrev pub Takes : {A : Type 0} → ℕ → Result (A × Tokens) → Type 0
Takes k (ok (a, ts)) = length ts < k
Takes k (err e) = is_exhausted e.rule ≡ false

-- On fewer than `n` tokens the parser ends.
abbrev pub Bounded : {A : Type 0} → ℕ → Parser A → Type 0
Bounded n p = (ts : Tokens) → length ts < n → Ends (length ts) (p ts)

abbrev pub TakesBelow : {A : Type 0} → ℕ → Parser A → Type 0
TakesBelow n p = (ts : Tokens) → length ts < n → Takes (length ts) (p ts)

pub Ends-bind :
    {A B : Type 0} (k k' : ℕ) (r : Result (A × Tokens)) (f : A × Tokens → Result (B × Tokens))
    → Ends k r
    → ((a : A) (ts : Tokens) → length ts ≤ k → Ends k' (f (a, ts)))
    → Ends k' (r >>= f)
Ends-bind k k' (ok (a, ts)) f e g = g a ts e
Ends-bind k k' (err x) f e g = e

pub Takes-bind :
    {A B : Type 0} (k k' : ℕ) (r : Result (A × Tokens)) (f : A × Tokens → Result (B × Tokens))
    → Takes k r
    → ((a : A) (ts : Tokens) → length ts < k → Ends k' (f (a, ts)))
    → Ends k' (r >>= f)
Takes-bind k k' (ok (a, ts)) f e g = g a ts e
Takes-bind k k' (err x) f e g = e

pub Takes-bind-Takes :
    {A B : Type 0} (k k' : ℕ) (r : Result (A × Tokens)) (f : A × Tokens → Result (B × Tokens))
    → Takes k r
    → ((a : A) (ts : Tokens) → length ts < k → Takes k' (f (a, ts)))
    → Takes k' (r >>= f)
Takes-bind-Takes k k' (ok (a, ts)) f e g = g a ts e
Takes-bind-Takes k k' (err x) f e g = e

pub Ends-of_Takes : {A : Type 0} (k : ℕ) (r : Result (A × Tokens)) → Takes k r → Ends k r
Ends-of_Takes k (ok (a, ts)) e = omega arith
Ends-of_Takes k (err x) e = e

pub Ends-mono : {A : Type 0} (k k' : ℕ) (r : Result (A × Tokens)) → k ≤ k' → Ends k r → Ends k' r
Ends-mono k k' (ok (a, ts)) l e = omega arith
Ends-mono k k' (err x) l e = e

pub Takes-of_Ends :
    {A : Type 0} (k k' : ℕ) (r : Result (A × Tokens)) → k < k' → Ends k r → Takes k' r
Takes-of_Ends k k' (ok (a, ts)) l e = omega arith
Takes-of_Ends k k' (err x) l e = e

pub Ends-if :
    {A : Type 0} (k : ℕ) (b : Bool) (x y : Result (A × Tokens))
    → Ends k x
    → Ends k y
    → Ends k (if b then x else y)
Ends-if k true x y e f = e
Ends-if k false x y e f = f

pub expect_delim-Takes :
    (path : String) (d : Delim) (ts : Tokens) → Takes (length ts) (expect_delim path d ts)
unfolding expect_delim
expect_delim-Takes path d [] = refl
expect_delim-Takes path d (string s ∷ ts) = refl
expect_delim-Takes path d (numeral s ∷ ts) = refl
expect_delim-Takes path d (truth s ∷ ts) = refl
expect_delim-Takes path d (Token.nil ∷ ts) = refl
expect_delim-Takes path d (broken ∷ ts) = refl
expect_delim-Takes path d (delim e ∷ ts) = by_delim (same_delim e d)
  where
    by_delim :
        (b : Bool)
        → Takes (suc (length ts)) (if b then ok (tt, ts) else fail path Rule.delimiter_expected)
    by_delim true = omega arith
    by_delim false = refl

pub read_key-Takes : (path : String) (ts : Tokens) → Takes (length ts) (read_key path ts)
unfolding read_key
read_key-Takes path [] = refl
read_key-Takes path (string s ∷ ts) = omega arith
read_key-Takes path (numeral s ∷ ts) = refl
read_key-Takes path (truth s ∷ ts) = refl
read_key-Takes path (Token.nil ∷ ts) = refl
read_key-Takes path (broken ∷ ts) = refl
read_key-Takes path (delim e ∷ ts) = refl

pub read_string-Takes : (path : String) (ts : Tokens) → Takes (length ts) (read_string path ts)
unfolding read_string
read_string-Takes path [] = refl
read_string-Takes path (string s ∷ ts) = omega arith
read_string-Takes path (numeral s ∷ ts) = refl
read_string-Takes path (truth s ∷ ts) = refl
read_string-Takes path (Token.nil ∷ ts) = refl
read_string-Takes path (broken ∷ ts) = refl
read_string-Takes path (delim e ∷ ts) = refl

read_fields-Ends :
    {A : Type 0} (n fuel : ℕ) (path : String) (step : String → A → Parser A)
    → ((key : String) (a : A) → Bounded n (step key a))
    → (a : A) (ts : Tokens) → length ts < fuel
    → length ts < n
    → Ends (length ts) (read_fields fuel path step a ts)
unfolding read_fields
read_fields-Ends n zero path step steps a ts l m = absurd (omega arith)
read_fields-Ends n (suc fuel) path step steps a ts l m =
    Ends-if (length ts) (more ts) _ (ok (a, ts))
      (Takes-bind (length ts) (length ts) (read_key path ts) _ (read_key-Takes path ts)
        (λ key ts₁ l₁.
          Ends-bind (length ts₁) (length ts) (step key a ts₁) _ (steps key a ts₁ (omega arith))
            (λ a' ts₂ l₂.
              Ends-mono (length ts₂) (length ts) (read_fields fuel path step a' ts₂) (omega arith)
                (read_fields-Ends n fuel path step steps a' ts₂ (omega arith) (omega arith)))))
      (omega arith)

read_items-Ends :
    {A : Type 0} (n fuel : ℕ) (path : String) (item : ℕ → Parser A)
    → ((i : ℕ) → TakesBelow n (item i))
    → (i : ℕ) (ts : Tokens) → length ts < fuel
    → length ts < n
    → Ends (length ts) (read_items fuel path item i ts)
unfolding read_items
read_items-Ends n zero path item items i ts l m = absurd (omega arith)
read_items-Ends n (suc fuel) path item items i ts l m =
    Ends-if (length ts) (more ts) _ (ok ([], ts))
      (Takes-bind (length ts) (length ts) (item i ts) _ (items i ts m) (λ a ts₁ l₁.
        Ends-bind (length ts₁) (length ts) (read_items fuel path item (suc i) ts₁) _
          (read_items-Ends n fuel path item items (suc i) ts₁ (omega arith) (omega arith))
          (λ as' ts₂ l₂. omega arith)))
      (omega arith)

-- An object and an array end where their fields and elements do.
pub object_body-Bounded :
    {A : Type 0} (n : ℕ) (path : String) (step : String → A → Parser A)
    → ((key : String) (a : A) → Bounded n (step key a))
    → (a : A) → Bounded n (object_body path step a)
unfolding object_body
object_body-Bounded n path step steps a ts l =
    Ends-bind (length ts) (length ts) (read_fields (suc (length ts)) path step a ts) _
      (read_fields-Ends n (suc (length ts)) path step steps a ts (omega arith) l)
      (λ a' ts₁ l₁.
        Takes-bind (length ts₁) (length ts) (expect_delim path close_object ts₁) _
          (expect_delim-Takes path close_object ts₁) (λ u ts₂ l₂. omega arith))

pub read_object-TakesBelow :
    {A : Type 0} (n : ℕ) (path : String) (step : String → A → Parser A)
    → ((key : String) (a : A) → Bounded n (step key a))
    → (a : A) → TakesBelow (suc n) (read_object path step a)
unfolding read_object
read_object-TakesBelow n path step steps a ts l =
    Takes-bind-Takes (length ts) (length ts) (expect_delim path open_object ts) _
      (expect_delim-Takes path open_object ts)
      (λ u ts₁ l₁.
        Takes-of_Ends (length ts₁) (length ts) (object_body path step a ts₁) l₁
          (object_body-Bounded n path step steps a ts₁ (omega arith)))

pub array_body-Bounded :
    {A : Type 0} (n : ℕ) (path : String) (item : ℕ → Parser A)
    → ((i : ℕ) → TakesBelow n (item i))
    → Bounded n (array_body path item)
unfolding array_body
array_body-Bounded n path item items ts l =
    Ends-bind (length ts) (length ts) (read_items (suc (length ts)) path item 0 ts) _
      (read_items-Ends n (suc (length ts)) path item items 0 ts (omega arith) l)
      (λ as' ts₁ l₁.
        Takes-bind (length ts₁) (length ts) (expect_delim path close_array ts₁) _
          (expect_delim-Takes path close_array ts₁) (λ u ts₂ l₂. omega arith))

pub read_array-Bounded :
    {A : Type 0} (n : ℕ) (path : String) (item : ℕ → Parser A)
    → ((i : ℕ) → TakesBelow n (item i))
    → Bounded n (read_array path item)
unfolding read_array
read_array-Bounded n path item items ts l =
    Takes-bind (length ts) (length ts) (expect_delim path open_array ts) _
      (expect_delim-Takes path open_array ts)
      (λ u ts₁ l₁.
        Ends-mono (length ts₁) (length ts) (array_body path item ts₁) (omega arith)
          (array_body-Bounded n path item items ts₁ (omega arith)))
