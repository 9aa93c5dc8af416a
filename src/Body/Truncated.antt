-- ===== src/Body/Truncated.antt =====
-- A response's body that is cut off.
use gfhttpd.Base.{
  ℕ, suc, ◌+◌, ◌≤◌, ◌<◌, ◌≡◌, ◌≢◌, refl, true, false, List, [], ◌∷◌, ◌++◌, ok, Bytes, length, drop,
  ℤ, pos, arith, lt→ltb, length-drop, ◌==◌,
}
use gfhttpd.Body.{buf_size, Send, Write, returned, sent, next_send, body_loop, finish, write_body}
use gfhttpd.Body.Complete.{writing, next_send-last}

module _ (file : Bytes) (accept : List Send → Send → ℤ) where
  loop_breaks :
      (fuel n w : ℕ) (before : List Send) (send : Send)
      → n < length file
      → next_send file accept (writing file n false n before) ≡ send
      → accept before send ≡ pos w
      → w ≢ length (send.body)
      → body_loop file accept (suc fuel) (writing file n false n before)
        ≡ ok (
            returned record {
              position = pos (n + w);
              len = pos (length file);
              eof = send.fin;
              offset = n + length (send.body);
              sends = before ++ send ∷ [];
              scheduled = true;
              closed = false;
            })
  unfolding body_loop sent
  loop_breaks fuel n w before send more e took short =
      let f : (w == length (send.body)) ≡ false = ground arith in
      rw (e, took, lt→ltb n (length file) more, f)

  -- When the rest of the file fits one read and the call takes only `w` bytes of it, the callback
  -- removes its event and closes the file all the same: the bytes after the first `w` are never
  -- sent.
  pub write_body-truncated :
      (fuel n w offset : ℕ) (before : List Send)
      → n < length file
      → length file ≤ n + buf_size
      → accept before record { body = drop n file; fin = true } ≡ pos w
      → n + w < length file
      → (fw : Write) × (write_body file accept (suc fuel) (writing file n false offset before)
          ≡ ok (returned fw))
        × (fw.position ≡ pos (n + w))
        × (fw.scheduled ≡ false)
        × (fw.closed ≡ true)
  unfolding write_body finish
  write_body-truncated fuel n w offset before more last took short =
      let size = length-drop n file in
      (
        record {
          position = pos (n + w);
          len = pos (length file);
          eof = true;
          offset = n + length (drop n file);
          sends = before ++ record { body = drop n file; fin = true } ∷ [];
          scheduled = false;
          closed = true;
        },
        rw (
            loop_breaks fuel n w before record { body = drop n file; fin = true } more
              (next_send-last file accept n before (omega arith) last) took
              (λ e. omega (arith, size, e))),
        refl,
        refl,
        refl,
      )
