-- ===== src/Mesh/Replay.antt =====
-- src/mesh/security.rs: the sliding window of security counters. `u64` shifts drop the high bits.
pub mod Bitmap
pub mod History
use hart_link.Common.{
  ℕ, ◌-◌, ◌*◌, ◌%◌, ◌^◌, bit_and, bit_or, Bool, true, false, not, Option, none, some, ltb, leb,
  ◌==◌, if◌then◌else◌, Result, ok, err,
}

pub data SecurityError : Type 0 where
  replayed : ℕ → SecurityError
  too_old : ℕ → SecurityError

pub record ReplayWindow : Type 0 where
  pub highest : ℕ
  pub seen : ℕ
  pub initialized : Bool

-- `ReplayWindow::default()`
abbrev pub new_window : ReplayWindow
new_window = record { highest = 0; seen = 0; initialized = false }

-- The bitmap after the window has moved up by `shift`.
unfoldable pub shift_seen : ℕ → ℕ → ℕ
shift_seen seen shift = if leb 64 shift then 1 else bit_or (seen * 2 ^ shift % 2 ^ 64) 1

-- `accept` for a counter that is not above the highest, by its age.
unfoldable pub accept_within :
    ReplayWindow → (counter age : ℕ) → Result SecurityError (Unit {0}) × ReplayWindow
accept_within w counter age =
    if leb 64 age
    then (err (too_old counter), w)
    else (let mask = 2 ^ age in
        if not (bit_and w.seen mask == 0)
        then (err (replayed counter), w)
        else (ok tt, record w { seen = bit_or w.seen mask }))

unfoldable pub accept : ReplayWindow → ℕ → Result SecurityError (Unit {0}) × ReplayWindow
unfolding accept_within shift_seen
accept w counter =
    if not w.initialized
    then (ok tt, record w { highest = counter; seen = 1; initialized = true })
    else if ltb w.highest counter
    then (ok tt, record w { seen = shift_seen w.seen (counter - w.highest); highest = counter })
    else accept_within w counter (w.highest - counter)

-- `ReplayWindow::highest`
unfoldable pub window_highest : ReplayWindow → Option ℕ
window_highest w = if w.initialized then some w.highest else none
