-- ===== src/Outbox/Retry.antt =====
-- How often and how late a failing event is tried again.
use settlement.Base.{
  ℕ, zero, suc, ◌+◌, ◌≤◌, ◌≡◌, refl, Bool, none, length, leb, if◌then◌else◌, arith, length-take-le,
}
use settlement.Base.Text.{Text}
use settlement.Outbox.Rows.{Event, retry_wait, dead_letter}
use settlement.Outbox.Store.{backoff, safe, mark_failed, spaced}

-- The waiting time lies between a minute and six hours and does not fall from one attempt to the
-- next.
pub backoff_bounds :
    (n : ℕ) → (60000 ≤ backoff n) × (backoff n ≤ 21600000) × (backoff n ≤ backoff (suc n))
unfolding backoff
backoff_bounds zero = omega arith
backoff_bounds (suc zero) = omega arith
backoff_bounds (suc (suc zero)) = omega arith
backoff_bounds (suc (suc (suc zero))) = omega arith
backoff_bounds (suc (suc (suc (suc zero)))) = omega arith
backoff_bounds (suc (suc (suc (suc (suc zero))))) = omega arith
backoff_bounds (suc (suc (suc (suc (suc (suc n)))))) = omega arith

-- What a failed delivery makes of the row: it is unlocked with its failure counted; it is dead
-- exactly when the failure is permanent or the seventh; otherwise it waits for at least a minute.
pub record IsRescheduled (clock : ℕ) (permanent : Bool) (before after : Event) : Type 0 where
  pub counted : after.attempt ≡ before.attempt + 1
  pub unlocked : (after.locked_by ≡ none) × (after.locked_until ≡ none)
  pub same_event : (after.id ≡ before.id) × (after.payload ≡ before.payload)
  pub dead_iff :
      after.status
      ≡ (if permanent then dead_letter else if leb 7 after.attempt then dead_letter else retry_wait)
  pub waits : after.status ≡ retry_wait → clock + 60000 ≤ after.available_at
  pub summary_fits : length after.last_error_summary ≤ 500

safe-length : (s : Text) (n : ℕ) → length (safe s n) ≤ n
unfolding safe
safe-length s n = ground (arith, length-take-le n (spaced s))

pub mark_failed-IsRescheduled :
    (clock : ℕ) (code summary : Text) (permanent : Bool) (e : Event)
    → IsRescheduled clock permanent e (mark_failed clock code summary permanent (e.attempt + 1) e)
mark_failed-IsRescheduled clock code summary permanent e = record {
  counted = refl;
  unlocked = (refl, refl);
  same_event = (refl, refl);
  dead_iff = ground arith;
  waits = ground (arith, backoff_bounds (e.attempt + 1));
  summary_fits = safe-length summary 500;
}
