-- ===== src/Timer/Rounding.antt =====
-- The timer is the timeout, rounded up to milliseconds.
use gfhttpd.Base.{
  ℕ, ◌+◌, ◌-◌, ◌*◌, ◌/◌, ◌%◌, ◌^◌, ◌≤◌, ◌<◌, ◌≡◌, ◌≢◌, refl, true, some, ok, leb, pos, negsuc,
  arith, if-cases, lt→ltb, leb→le,
}
use gfhttpd.Timer.{Timeval, timeval, set_timeout}

-- The timer stands for `ms` milliseconds.
pub record Is (ms : ℕ) (t : Timeval) : Type 0 where
  pub seconds : ℕ
  pub tv_sec : t.tv_sec ≡ pos seconds
  pub normal : t.tv_usec < 1000000
  pub total : seconds * 1000000 + t.tv_usec ≡ ms * 1000

timeval-Is : (ms : ℕ) → Is ms (timeval (pos ms))
unfolding timeval
timeval-Is ms =
    if-cases (Is ms) (leb 1000000 ((ms % 1000 % 2 ^ 32 * 1000) % 2 ^ 32))
      (λ carry. absurd (let h = leb→le 1000000 _ carry in omega (arith, h)))
      (λ _. record {
        seconds = ms / 1000;
        tv_sec = refl;
        normal = omega arith;
        total = omega arith;
      })

-- A timeout of `n` nanoseconds, not 0, whose rounding does not overflow an int64, sets a timer
-- of the least number of milliseconds that is not below it, in normal form.
pub set_timeout-rounds_up :
    (n : ℕ)
    → n ≢ 0
    → n + 999999 < 2 ^ 63
    → (t : Timeval) × (ms : ℕ) × (set_timeout true (pos n) ≡ ok (some t))
      × Is ms t
      × (n ≤ ms * 1000000)
      × (ms * 1000000 < n + 1000000)
unfolding set_timeout
set_timeout-rounds_up n nonzero small =
    let ms = (n + 999999) / 1000000 in
    (timeval (pos ms), ms, ground arith, timeval-Is ms, omega arith, omega arith)

-- A negative timeout of less than a millisecond sets a timer of 0, which is due at once. The
-- QUIC library's value for "no timeout" is such, -1 nanosecond.
pub set_timeout-negative :
    (n : ℕ)
    → n < 999999
    → set_timeout true (negsuc n) ≡ ok (some record { tv_sec = pos 0; tv_usec = 0 })
unfolding set_timeout timeval
set_timeout-negative n small =
    let e : (999998 - n) / 1000000 ≡ 0 = omega arith in rw (lt→ltb n 999999 small, e)
