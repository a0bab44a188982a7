-- ===== src/Examples/Tools.antt =====
-- The theorems on the virtual clock, the stall observer and generated names, at small inputs.
use Prim.Native.Char.{Char, code}
use statesman.Base.{
  String, ℕ, ◌≡◌, refl, Bool, true, false, ◌&&◌, leb, ℤ, pos, negsuc, leb_ℤ, Option, none, List, [],
  ◌∷◌, ◌↔◌, keep, map,
}
use statesman.VirtualClock.{
  ManualTimer, ManualTimerService, mark_due, mark_fired_if_due, cancel, fired_now, due_by,
  due_between, mark_due-once, cancel_or_fire,
}
use statesman.VirtualClock.{live}
use statesman.StallObserver.{on_transition, takes, timer_at, on_transition_lem}
use statesman.Naming.{Unicode, check_collisions}
use statesman.Naming.Collisions.{IsCollisionFree, check_collisions_iff}

abbrev timer : ℤ → ℕ → ManualTimer
timer at fire = record { deadline = at; fire = fire; cancelled = false; fired = false }

abbrev armed : List ManualTimer
armed = timer (pos 30) 0 ∷ timer (pos 10) 1 ∷ record (timer (pos 20) 2) { cancelled = true } ∷ []

mark_due-once_example :
    ((mark_due (pos 15) armed).1 ≡ map fired_now (keep (due_by (pos 15)) armed))
    × ((mark_due (pos 40) (mark_due (pos 15) armed).0).1
        ≡ map fired_now (keep (due_between (pos 15) (pos 40)) armed))
mark_due-once_example = mark_due-once (pos 15) (pos 40) armed

cancel_or_fire_example :
    ((cancel (timer (pos 10) 1)).1 ≡ true)
    × ((mark_fired_if_due (pos 15) (cancel (timer (pos 10) 1)).0).1 ≡ false)
    × ((mark_fired_if_due (pos 15) (timer (pos 10) 1)).1 ≡ true)
    × ((cancel (mark_fired_if_due (pos 15) (timer (pos 10) 1)).0).1 ≡ false)
cancel_or_fire_example = cancel_or_fire (pos 15) (timer (pos 10) 1) refl

abbrev within : ℕ → ℕ → Char → Bool
within low high r = leb low (code r) && leb (code r) high

-- ASCII digits and letters, without the change of case.
abbrev ascii : Unicode
ascii = record {
  is_upper = within b'A' b'Z';
  is_lower = within b'a' b'z';
  is_digit = within b'0' b'9';
  is_letter = λ r. leb b'A' (code r);
  to_upper = λ r. r;
  to_lower = λ r. r;
  is_keyword = λ s. false;
}

check_collisions_iff_example :
    (check_collisions ascii ("go" ∷ "stop" ∷ []) ≡ none)
    ↔ IsCollisionFree ascii ("go" ∷ "stop" ∷ [])
check_collisions_iff_example = check_collisions_iff ascii ("go" ∷ "stop" ∷ [])

abbrev no_error : Option String
no_error = none

abbrev service : ManualTimerService
service = record { now = negsuc 4; timers = armed }

on_transition_lem_example :
    ((on_transition (pos 20) 9 (takes (pos 30) no_error) service).1 ≡ no_error)
    × ((timer_at 3 (on_transition (pos 20) 9 (takes (pos 30) no_error) service).0).fired
        ≡ leb_ℤ (pos 20) (pos 30))
    × (live (timer_at 3 (on_transition (pos 20) 9 (takes (pos 30) no_error) service).0) ≡ false)
on_transition_lem_example = on_transition_lem (pos 20) (pos 30) 9 no_error service
