-- ===== src/Http2/Session/Examples.antt =====
-- A connection that negotiates "h2" and sends a byte, and a read that is interrupted twice.
use gfhttpd.Base.{◌≡◌, refl, ℕ, suc, true, false, List, [], ◌∷◌, ◌++◌, replicate, ok, pos, length}
use gfhttpd.Http2.Session.{Nghttp2}
use gfhttpd.Http2.Session.Leaving.{BevEvent, readable, writable, ended}
use gfhttpd.Http2.Session.Reads.{
  eintr, eagain, got, failed, file_read_callback, expected, file_read_callback-expected,
}

-- A library that counts its calls.
abbrev counting : Nghttp2
counting = record {
  Handle = ℕ;
  server_new = 0;
  submit_settings = λ s. (pos 0, suc s);
  send = λ s. (pos 0, suc s);
  mem_recv = λ s input. (pos (length input), suc s);
  want_read = λ s. true;
  want_write = λ s. true;
}

abbrev seen : List BevEvent
seen = readable (1 ∷ []) ∷ writable ∷ ended ∷ []

file_read_callback-expected_example :
    file_read_callback eagain (replicate 2 (failed eintr) ++ got 0 ∷ [])
    ≡ ok (expected eagain 2 (got 0))
file_read_callback-expected_example = file_read_callback-expected eagain 2 (got 0) [] refl

-- The end of the file goes unnoticed.
forgotten : file_read_callback eagain (got 0 ∷ []) ≡ ok (pos 0, false)
unfolding file_read_callback
forgotten = refl
