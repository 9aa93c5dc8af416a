-- ===== src/Body/Complete.antt =====
-- When a response's body is complete.
use gfhttpd.Base.{
  ℕ, zero, suc, ◌+◌, ◌≤◌, ◌<◌, ◌≡◌, refl, sym, ap, ◌∙◌, Bool, true, false, List, [], ◌∷◌, ◌++◌, ok,
  Bytes, length, drop, ℤ, pos, arith, append_assoc, length-drop, drop-drop, take-append-drop, ltb,
  lt→ltb, dec_lt, ==_refl, append-[], length-take, take_of_ge,
}
use gfhttpd.Body.{
  buf_size, Send, Write, returned, chunk, sent, next_send, body_loop, finish, write_body,
}

-- The bytes of all calls.
abbrev pub all_bytes : List Send → Bytes
all_bytes [] = []
all_bytes (send ∷ sends) = send.body ++ all_bytes sends

-- A response of a whole file, from the position `n` on.
abbrev pub writing : Bytes → ℕ → Bool → ℕ → List Send → Write
writing file n eof offset sends = record {
  position = pos n;
  len = pos (length file);
  eof = eof;
  offset = offset;
  sends = sends;
  scheduled = false;
  closed = false;
}

-- The loop ends with the rest of the file sent.
pub record Completes (file : Bytes) (n : ℕ) (before : List Send) (fw : Write) : Type 0 where
  pub position : fw.position ≡ pos (length file)
  pub sends : List Send
  pub calls : fw.sends ≡ before ++ sends
  pub content : all_bytes sends ≡ drop n file
  pub eof : fw.eof ≡ true

buf_size_positive : 0 < buf_size
unfolding buf_size
buf_size_positive = omega arith

module _ (file : Bytes) (accept : List Send → Send → ℤ) where
  pub next_send-last :
      (n : ℕ) (before : List Send)
      → n ≤ length file
      → length file ≤ n + buf_size
      → next_send file accept (writing file n false n before)
        ≡ record { body = drop n file; fin = true }
  unfolding next_send
  next_send-last n before le last =
      let size = length-drop n file in
      let e : chunk file accept n ≡ drop n file =
        take_of_ge buf_size (drop n file) (omega (arith, size)) in
      rw e (
        let f : ltb (n + length (drop n file)) (length file) ≡ false = ground (arith, size) in rw f)

module _ (file : Bytes) (accept : List Send → Send → ℤ)
    (all : (sends : List Send) (send : Send) → accept sends send ≡ pos (length (send.body))) where
  next_send-more :
      (n : ℕ) (before : List Send)
      → n + buf_size < length file
      → next_send file accept (writing file n false n before)
        ≡ record { body = chunk file accept n; fin = false }
  unfolding next_send
  next_send-more n before more =
      let size : length (chunk file accept n) ≡ buf_size =
        length-take buf_size (drop n file) (omega (arith, length-drop n file)) in
      let f : ltb (n + length (chunk file accept n)) (length file) ≡ true =
        lt→ltb _ _ (omega (arith, size)) in
      rw f

  round :
      (fuel n : ℕ) (before : List Send) (send : Send)
      → n < length file
      → next_send file accept (writing file n false n before) ≡ send
      → body_loop file accept (suc fuel) (writing file n false n before)
        ≡ body_loop file accept fuel (
            writing file
              (n + length (send.body))
              (send.fin)
              (n + length (send.body))
              (before ++ send ∷ []))
  unfolding body_loop sent
  round fuel n before send more e =
      rw (e, all before send, lt→ltb n (length file) more, ==_refl (length (send.body)))

  ends :
      (fuel : ℕ) (sends : List Send)
      → body_loop file accept (suc fuel) (writing file (length file) true (length file) sends)
        ≡ ok (returned (writing file (length file) true (length file) sends))
  unfolding body_loop
  ends fuel sends = let e : ltb (length file) (length file) ≡ false = ground arith in rw e

  body_loop-Completes :
      (fuel n : ℕ) (before : List Send)
      → n < length file
      → length file < fuel + n
      → (fw : Write) × (body_loop file accept fuel (writing file n false n before)
          ≡ ok (returned fw))
        × Completes file n before fw
  body_loop-Completes zero n before more enough = absurd (omega arith)
  body_loop-Completes (suc zero) n before more enough = absurd (omega arith)
  body_loop-Completes (suc (suc fuel)) n before more enough =
      elim (dec_lt (n + buf_size) (length file)) [
        | yes far ↦
            (let send : Send = record { body = chunk file accept n; fin = false } in
              let size : length (send.body) ≡ buf_size =
                length-take buf_size (drop n file) (omega (arith, length-drop n file)) in
              let (fw, done, c) =
                body_loop-Completes (suc fuel) (n + length (send.body)) (before ++ send ∷ [])
                  (omega (arith, size)) (omega (arith, size, buf_size_positive)) in
              (
                fw,
                round (suc fuel) n before send more (next_send-more n before far) ∙ done,
                record {
                  position = c.position;
                  sends = send ∷ c.sends;
                  calls = c.calls ∙ append_assoc before (send ∷ []) (c.sends);
                  content =
                      ap (send.body ++◌) (
                        c.content
                        ∙ ap (λ k. drop (n + k) file) size
                        ∙ sym (drop-drop n buf_size file))
                      ∙ take-append-drop buf_size (drop n file);
                  eof = c.eof;
                },
              ))
        | no near ↦
            (let send : Send = record { body = drop n file; fin = true } in
              let size : n + length (drop n file) ≡ length file =
                omega (arith, length-drop n file) in
              let last =
                round (suc fuel) n before send more
                  (next_send-last file accept n before (omega arith) (omega arith)) in
              (
                writing file (length file) true (length file) (before ++ send ∷ []),
                last ∙ rw size (ends fuel (before ++ send ∷ [])),
                record {
                  position = refl;
                  sends = send ∷ [];
                  calls = refl;
                  content = append-[] (drop n file);
                  eof = refl;
                },
              ))
      ]

  finish-closed :
      (fw : Write)
      → fw.eof ≡ true
      → finish file accept (returned fw) ≡ returned (record fw { scheduled = false; closed = true })
  unfolding finish
  finish-closed fw e = rw e

  -- Where every call takes all its bytes, the callback ends with the whole rest of a file sent
  -- from a position before its end: the bytes of the calls are the rest in order, `eof` is set,
  -- and the file is closed. It takes at most as many rounds as there are bytes left, and one.
  pub write_body-Completes :
      (fuel n offset : ℕ) (before : List Send)
      → n < length file
      → length file < fuel + n
      → (fw : Write) × (write_body file accept fuel (writing file n false offset before)
          ≡ ok (returned fw))
        × Completes file n before fw
        × (fw.closed ≡ true)
  unfolding write_body
  write_body-Completes fuel n offset before more enough =
      let (fw, done, c) = body_loop-Completes fuel n before more enough in
      (
        record fw { scheduled = false; closed = true },
        rw done (ap ok (finish-closed fw (c.eof))),
        record {
          position = c.position;
          sends = c.sends;
          calls = c.calls;
          content = c.content;
          eof = c.eof;
        },
        refl,
      )
