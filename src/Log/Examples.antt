-- ===== src/Log/Examples.antt =====
-- A line that is read in two pieces.
use gfhttpd.Base.{
  ◌≡◌, refl, true, some, List, [], ◌∷◌, Bytes, bytes, ok, pos, ltb, All, arith, if◌then◌else◌,
}
use gfhttpd.Log.{Logger, Written, log_log, write_log_cb}
use gfhttpd.Log.Printed.{joined, line, written_text, IsText, log_log-printed}

abbrev logger : Logger
logger = record { fds_pipe = (pos 3, pos 4); level = 2; evpipe = true }

abbrev pieces : List Bytes
pieces = bytes "12:00:00 INF" ∷ bytes "O  main.c:1: hello\n" ∷ []

pieces-line :
    joined pieces ≡ line (bytes "12:00:00") (bytes "INFO") (bytes "main.c:1") (bytes "hello")
pieces-line = refl

pieces-IsText : IsText (joined pieces)
pieces-IsText = ground arith

log_log-printed_example :
    (writes : List Written) × (log_log
        (some logger)
        2
        (bytes "main.c:1")
        (bytes "hello")
        (bytes "12:00:00")
      ≡ ok writes)
    × All (λ w. w.fd ≡ pos 4) writes
    × (if ltb 2 (logger.level)
        then writes ≡ []
        else (written_text writes ≡ joined pieces)
          × (write_log_cb true pieces
              ≡ line (bytes "12:00:00") (bytes "INFO") (bytes "main.c:1") (bytes "hello")))
log_log-printed_example =
    log_log-printed logger 2 (bytes "INFO") (bytes "main.c:1") (bytes "hello") (bytes "12:00:00")
      pieces refl pieces-IsText pieces-line
