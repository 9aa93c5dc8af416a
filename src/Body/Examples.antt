-- ===== src/Body/Examples.antt =====
-- The body of a file of three bytes.
use gfhttpd.Base.{◌≡◌, refl, true, false, List, [], bytes, ok, ℤ, pos, length, arith}
use gfhttpd.Body.{buf_size, Send, Write, returned, write_body}
use gfhttpd.Body.Complete.{writing, Completes, write_body-Completes}
use gfhttpd.Body.Truncated.{write_body-truncated}

abbrev takes_all : List Send → Send → ℤ
takes_all sends send = pos (length (send.body))

abbrev takes_one : List Send → Send → ℤ
takes_one sends send = pos 1

write_body-Completes_example :
    (fw : Write) × (write_body (bytes "abc") takes_all 4 (writing (bytes "abc") 0 false 0 [])
      ≡ ok (returned fw))
    × Completes (bytes "abc") 0 [] fw
    × (fw.closed ≡ true)
write_body-Completes_example =
    write_body-Completes (bytes "abc") takes_all (λ sends send. refl) 4 0 0 [] (omega arith)
      (omega arith)

write_body-truncated_example :
    (fw : Write) × (write_body (bytes "abc") takes_one 1 (writing (bytes "abc") 0 false 0 [])
      ≡ ok (returned fw))
    × (fw.position ≡ pos 1)
    × (fw.scheduled ≡ false)
    × (fw.closed ≡ true)
write_body-truncated_example =
    write_body-truncated (bytes "abc") takes_one 0 0 1 0 [] (omega arith)
      (unfold buf_size in omega arith) refl (omega arith)
