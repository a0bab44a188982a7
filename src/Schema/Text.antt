-- ===== src/Schema/Text.antt =====
-- What the loader asks of texts (schema/resolve.go, and the `strings` functions it calls).
use Prim.Native.Char.{Char, code}
use Prim.Native.String.{String}
use statesman.Base.{
  ℕ, ◌+◌, ◌*◌, ◌-◌, ◌^◌, Bool, true, false, List, [], ◌∷◌, ◌==◌, ◌&&◌, ◌||◌, leb, ltb,
  if◌then◌else◌, str_eq,
}
use statesman.Definition.{Delay}
use statesman.Schema.{Result, ok, fail, event_descriptor_wildcard, delay_empty, delay_overflow}

-- The text behind its first byte, `raw[1:]`, where that byte is a character.
abbrev pub tail_text : String → String
tail_text String.[] = String.[]
tail_text (String.◌∷◌ c s) = s

-- Whether the text begins with the character of this code.
abbrev pub begins : ℕ → String → Bool
begins c String.[] = false
begins c (String.◌∷◌ d s) = code d == c

-- `strings.Contains(s, "*")`
unfoldable pub has_star : String → Bool
has_star String.[] = false
has_star (String.◌∷◌ c s) = (code c == b'*') || has_star s

-- `strings.Split(s, ".")`, the segment read so far in front.
unfoldable pub onto_first : Char → List String → List String
onto_first c [] = String.◌∷◌ c String.[] ∷ []
onto_first c (s ∷ ss) = String.◌∷◌ c s ∷ ss

unfoldable pub split_dots : String → List String
unfolding onto_first
split_dots String.[] = String.[] ∷ []
split_dots (String.◌∷◌ c s) =
    let rest = split_dots s in if code c == b'.' then String.[] ∷ rest else onto_first c rest

-- `validateEventDescriptor`
unfoldable pub validate_event_descriptor : String → String → Result (Unit {0})
unfolding has_star
validate_event_descriptor desc path =
    if str_eq desc "*"
    then ok tt
    else if has_star desc
    then fail path event_descriptor_wildcard
    else ok tt

abbrev pub is_digit : Char → Bool
is_digit c = leb b'0' (code c) && leb (code c) b'9'

unfoldable pub all_digits_from : String → Bool
all_digits_from String.[] = true
all_digits_from (String.◌∷◌ c s) = is_digit c && all_digits_from s

unfoldable pub is_all_digits : String → Bool
unfolding all_digits_from
is_all_digits s = if str_eq s "" then false else all_digits_from s

-- The number that the digits stand for.
unfoldable pub digits_value : ℕ → String → ℕ
digits_value acc String.[] = acc
digits_value acc (String.◌∷◌ c s) = digits_value (acc * 10 + (code c - b'0')) s

-- `parseDelay`; `ParseInt` refuses what does not fit an `int64`.
unfoldable pub parse_delay : String → String → Result Delay
unfolding is_all_digits digits_value
parse_delay key path =
    if str_eq key ""
    then fail path delay_empty
    else if is_all_digits key
    then (if ltb (digits_value 0 key) (2 ^ 63)
        then ok (record { millis = digits_value 0 key; symbol = "" })
        else fail path delay_overflow)
    else ok (record { millis = 0; symbol = key })
