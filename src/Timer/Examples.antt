-- ===== src/Timer/Examples.antt =====
-- Examples for the timer: 1.5 ms and a nanosecond, and the value that stands for no timeout.
use gfhttpd.Base.{◌≡◌, ◌<◌, ◌≤◌, ◌+◌, ◌*◌, ℕ, ok, arith, some, true, pos}
use gfhttpd.Timer.{Timeval, set_timeout}
use gfhttpd.Timer.Rounding.{Is, set_timeout-rounds_up}

set_timeout-rounds_up_example :
    (t : Timeval) × (ms : ℕ) × (set_timeout true (pos 1500001) ≡ ok (some t))
    × Is ms t
    × (1500001 ≤ ms * 1000000)
    × (ms * 1000000 < 1500001 + 1000000)
set_timeout-rounds_up_example = set_timeout-rounds_up 1500001 (ground arith) (omega arith)
