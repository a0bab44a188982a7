-- ===== src/Schema/Parse/Loops.antt =====
-- The loops over objects and arrays, on what prints them: where each field and each element is read
-- to its end, so is the whole.
use statesman.Base.{
  ◌≡◌, refl, ℕ, zero, suc, ◌<◌, ◌≤◌, String, true, List, [], ◌∷◌, ◌++◌, length, length-append,
  arith,
}
use mathlib.Core.List.{append_assoc}
use statesman.Schema.{LoadError, ok, err}
use statesman.Schema.Tokens.{
  Tokens, Parser, open_object, close_object, close_array, delim, string, more, read_key,
  read_fields, read_items, object_body, read_object, array_body, read_array, expect_delim,
}
use statesman.Schema.Parse.Print.{Entries, flatten, print_object, join, print_array}

-- Read off the tokens, whatever follows them, a parser answers `a`.
abbrev pub Reads : {A : Type 0} → Parser A → Tokens → A → Type 0
Reads p ts a = (rest : Tokens) → p (ts ++ rest) ≡ ok (a, rest)

-- The steps of an object's loop over its fields.
pub data Runs {A : Type 0} (step : String → A → Parser A) : A → Entries → A → Type 0 where
  done : {a : A} → Runs step a [] a
  next :
      {a : A} {es : Entries} {a'' : A} (key : String) (ts : Tokens) (a' : A)
      → Reads (step key a) ts a'
      → Runs step a' es a''
      → Runs step a ((key, ts) ∷ es) a''

pub Runs-append :
    {A : Type 0} {step : String → A → Parser A} {a a' a'' : A} {es fs : Entries}
    → Runs step a es a'
    → Runs step a' fs a''
    → Runs step a (es ++ fs) a''
Runs-append done r = r
Runs-append (next key ts a' reads before) r = next key ts a' reads (Runs-append before r)

length-flatten : (es : Entries) → length es ≤ length (flatten es)
length-flatten [] = omega arith
length-flatten ((k, ts) ∷ es) = omega (arith, length-append ts (flatten es), length-flatten es)

read_fields-Runs :
    {A : Type 0} (path : String) (step : String → A → Parser A) {a a' : A} {es : Entries}
    → Runs step a es a'
    → (fuel : ℕ) (rest : Tokens) → length es < fuel
    → read_fields fuel path step a (flatten es ++ delim close_object ∷ rest)
      ≡ ok (a', delim close_object ∷ rest)
unfolding read_fields more read_key
read_fields-Runs path step r zero rest l = absurd (omega arith)
read_fields-Runs path step done (suc fuel) rest l = refl
read_fields-Runs path step (next {es = es} key ts a' reads r) (suc fuel) rest l =
    rw (append_assoc ts (flatten es) (delim close_object ∷ rest)) (
      rw (reads (flatten es ++ delim close_object ∷ rest))
        (read_fields-Runs path step r fuel rest (omega arith)))

-- Behind fields that are read, a field that is refused is the answer of the loop.
pub read_fields-refused :
    {A : Type 0} (path : String) (step : String → A → Parser A) {a a' : A} {es : Entries}
    → Runs step a es a'
    → (key : String) (ts : Tokens) (e : LoadError) → step key a' ts ≡ err e
    → (fuel : ℕ) → length es < fuel
    → read_fields fuel path step a (flatten es ++ string key ∷ ts) ≡ err e
unfolding read_fields more read_key
read_fields-refused path step r key ts e refused zero l = absurd (omega arith)
read_fields-refused path step done key ts e refused (suc fuel) l = rw refused
read_fields-refused path step (next {es = es} k us a' reads r) key ts e refused (suc fuel) l =
    rw (append_assoc us (flatten es) (string key ∷ ts)) (
      rw (reads (flatten es ++ string key ∷ ts))
        (read_fields-refused path step r key ts e refused fuel (omega arith)))

pub object-refused :
    {A : Type 0} (path : String) (step : String → A → Parser A) {a a' : A} {es : Entries}
    → Runs step a es a'
    → (key : String) (ts : Tokens) (e : LoadError) → step key a' ts ≡ err e
    → read_object path step a (delim open_object ∷ (flatten es ++ string key ∷ ts)) ≡ err e
unfolding read_object object_body expect_delim
object-refused path step {es = es} r key ts e refused = rw (
    read_fields-refused path step r key ts e refused (suc (length (flatten es ++ string key ∷ ts)))
      (omega (arith, length-append (flatten es) (string key ∷ ts), length-flatten es)))

pub object_body-Reads :
    {A : Type 0} (path : String) (step : String → A → Parser A) {a a' : A} {es : Entries}
    → Runs step a es a'
    → Reads (object_body path step a) (flatten es ++ delim close_object ∷ []) a'
unfolding object_body expect_delim
object_body-Reads path step {es = es} r rest =
    rw (append_assoc (flatten es) (delim close_object ∷ []) rest) (
      rw (
        read_fields-Runs path step r (suc (length (flatten es ++ delim close_object ∷ rest))) rest (
          omega
            (arith, length-append (flatten es) (delim close_object ∷ rest), length-flatten es))))

pub read_object-Reads :
    {A : Type 0} (path : String) (step : String → A → Parser A) {a a' : A} {es : Entries}
    → Runs step a es a'
    → Reads (read_object path step a) (print_object es) a'
unfolding read_object expect_delim
read_object-Reads path step r rest = object_body-Reads path step r rest

-- The steps of an array's loop over its elements.
pub data Elements {A : Type 0} (item : ℕ → Parser A) : ℕ → List Tokens → List A → Type 0 where
  done : {i : ℕ} → Elements item i [] []
  next :
      {i : ℕ} {tss : List Tokens} {as' : List A} (ts : Tokens) (a : A)
      → ((rest : Tokens) → more (ts ++ rest) ≡ true)
      → 0 < length ts
      → Reads (item i) ts a
      → Elements item (suc i) tss as'
      → Elements item i (ts ∷ tss) (a ∷ as')

length-join :
    {A : Type 0} {item : ℕ → Parser A} {i : ℕ} {tss : List Tokens} {as' : List A}
    → Elements item i tss as'
    → length tss ≤ length (join tss)
length-join done = omega arith
length-join (next {tss = tss} ts a m l reads r) =
    omega (arith, length-append ts (join tss), length-join r)

read_items-Elements :
    {A : Type 0} (path : String) (item : ℕ → Parser A) {i : ℕ} {tss : List Tokens} {as' : List A}
    → Elements item i tss as'
    → (fuel : ℕ) (rest : Tokens) → length tss < fuel
    → read_items fuel path item i (join tss ++ delim close_array ∷ rest)
      ≡ ok (as', delim close_array ∷ rest)
unfolding read_items more
read_items-Elements path item r zero rest l = absurd (omega arith)
read_items-Elements path item done (suc fuel) rest l = refl
read_items-Elements path item (next {tss = tss} ts a m pos reads r) (suc fuel) rest l =
    rw (append_assoc ts (join tss) (delim close_array ∷ rest)) (
      rw (m (join tss ++ delim close_array ∷ rest)) (
        rw (reads (join tss ++ delim close_array ∷ rest))
          (rw (read_items-Elements path item r fuel rest (omega arith)))))

pub array_body-Reads :
    {A : Type 0} (path : String) (item : ℕ → Parser A) {tss : List Tokens} {as' : List A}
    → Elements item 0 tss as'
    → Reads (array_body path item) (join tss ++ delim close_array ∷ []) as'
unfolding array_body expect_delim
array_body-Reads path item {tss = tss} r rest =
    rw (append_assoc (join tss) (delim close_array ∷ []) rest) (
      rw (
        read_items-Elements path item r (suc (length (join tss ++ delim close_array ∷ rest))) rest
          (omega (arith, length-append (join tss) (delim close_array ∷ rest), length-join r))))

pub read_array-Reads :
    {A : Type 0} (path : String) (item : ℕ → Parser A) {tss : List Tokens} {as' : List A}
    → Elements item 0 tss as'
    → Reads (read_array path item) (print_array tss) as'
unfolding read_array expect_delim
read_array-Reads path item r rest = array_body-Reads path item r rest
