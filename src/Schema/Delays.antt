-- ===== src/Schema/Delays.antt =====
-- From a key of `after` to the duration of its timer: `parseDelay` (schema/resolve.go) and
-- `resolveDelay` (machine.go).
use statesman.Base.{
  ◌≡◌, refl, ◌*◌, ◌^◌, ◌<◌, ◌≤◌, true, false, String, ltb_iff, str_eq, pos, int64_small, Bool-cases,
  inl, inr, arith,
}
use statesman.Definition.{Delay}
use statesman.Snapshot.{Duration}
use statesman.Schema.{ok}
use statesman.Schema.Text.{is_all_digits, digits_value, parse_delay}
use statesman.Machine.Timers.{resolve_delay}

empty_no_digits : (key : String) → str_eq key "" ≡ true → is_all_digits key ≡ false
unfolding is_all_digits
empty_no_digits key empty = rw (empty, is_all_digits) refl

-- Digits are no empty text, and their value fits an `int64`.
parse_delay-digits :
    (key path : String)
    → is_all_digits key ≡ true
    → digits_value 0 key < 2 ^ 63
    → parse_delay key path ≡ ok (record { millis = digits_value 0 key; symbol = "" })
unfolding parse_delay
parse_delay-digits key path digits fits = elim (Bool-cases (str_eq key "")) [
  | inl empty ↦ cc (empty_no_digits key empty, digits)
  | inr nonempty ↦
      rw (digits, parse_delay, nonempty, (ltb_iff (digits_value 0 key) (2 ^ 63)).1 fits) refl
]

-- A key of digits whose value is at most 9223372036854 is read as a delay, and the timer of this
-- delay waits exactly so many milliseconds, in nanoseconds.
pub parse_delay-resolve_delay :
    (key path : String) (delays : String → Duration)
    → is_all_digits key ≡ true
    → digits_value 0 key ≤ 9223372036854
    → (d : Delay) × (parse_delay key path ≡ ok d)
      × (resolve_delay delays d ≡ pos (digits_value 0 key * 1000000))
unfolding resolve_delay
parse_delay-resolve_delay key path delays digits small = (
  record { millis = digits_value 0 key; symbol = "" },
  parse_delay-digits key path digits (omega arith),
  int64_small (digits_value 0 key * 1000000) (omega arith),
)
