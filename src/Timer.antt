-- ===== src/Timer.antt =====
-- The timer of a QUIC connection: `set_timeout` of main/http3/http3.c.
pub mod Rounding
mod Examples
use gfhttpd.Base.{
  ℕ, zero, suc, ◌+◌, ◌-◌, ◌*◌, ◌/◌, ◌%◌, ◌^◌, Bool, true, false, not, ◌&&◌, Option, none, some, Run,
  ok, fault, ◌>>=◌, ltb, leb, if◌then◌else◌, ℤ, pos, negsuc, is_zero, to_unsigned, quotient,
  remainder,
}

-- `struct timeval`, the microseconds of a value that is not negative.
pub record Timeval : Type 0 where
  pub tv_sec : ℤ
  pub tv_usec : ℕ

-- `n + 1` for a second that is not the last of `time_t`
abbrev next : ℤ → ℤ
next (pos n) = pos (n + 1)
next (negsuc zero) = pos 0
next (negsuc (suc n)) = negsuc n

-- `q_tout + 999999` in 64 bits; an overflow is undefined.
abbrev rounded_up : ℤ → Run ℤ
rounded_up (pos n) = if ltb (n + 999999) (2 ^ 63) then ok (pos (n + 999999)) else fault
rounded_up (negsuc n) = ok (if ltb n 999999 then pos (999998 - n) else negsuc (n - 999999))

-- The timer for a timeout of `tout` milliseconds.
unfoldable pub timeval : ℤ → Timeval
timeval tout =
    let sec = quotient tout 1000 in
    let usec = (to_unsigned (remainder tout 1000) * 1000) % 2 ^ 32 in
    if leb 1000000 usec
    then record { tv_sec = next sec; tv_usec = usec - 1000000 }
    else record { tv_sec = sec; tv_usec = usec }

-- `q_tout` in nanoseconds; the result is the timer that is added, `none` if none is.
unfoldable pub set_timeout : Bool → ℤ → Run (Option Timeval)
set_timeout timeout_ev q_tout =
    if not (is_zero q_tout) && timeout_ev
    then (rounded_up q_tout >>= λ sum. ok (some (timeval (quotient sum 1000000))))
    else ok none
