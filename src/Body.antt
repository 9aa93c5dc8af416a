-- ===== src/Body.antt =====
-- The body of an HTTP/3 response: what `future_write_cb` of main/http3/http3.c does once the
-- headers are sent, on a regular file.
pub mod Complete
pub mod Truncated
mod Examples
use gfhttpd.Base.{
  ℕ, zero, suc, ◌+◌, Bool, true, false, not, ◌||◌, List, [], ◌∷◌, ◌++◌, Run, ok, out_of_fuel, ◌>>=◌,
  Bytes, length, take, drop, if◌then◌else◌, ℤ, pos, negsuc, add, less, is_int,
}

-- `sizeof(buf)`
unfoldable pub buf_size : ℕ
buf_size = 14515

-- A call of `quiche_h3_send_body`: its bytes and `fin`.
pub record Send : Type 0 where
  pub body : Bytes
  pub fin : Bool

-- `struct future_write`, the offset of the file, the calls of `quiche_h3_send_body`, whether the
-- event is scheduled again, and whether the file is closed. The first two are `int`: the
-- model is of files below 2 ^ 31 bytes, which both can hold.
pub record Write : Type 0 where
  pub position : ℤ
  pub len : ℤ
  pub eof : Bool
  pub offset : ℕ
  pub sends : List Send
  pub scheduled : Bool
  pub closed : Bool

-- What `send_response` schedules: the length is not known yet.
unfoldable pub send_response : Write
send_response = record {
  position = pos 0;
  len = negsuc 0;
  eof = false;
  offset = 0;
  sends = [];
  scheduled = true;
  closed = false;
}

-- How the callback ends: it returns, or calls `exit`.
pub data Ending : Type 0 where
  returned : Write → Ending
  exited : Write → Ending

-- `accept` is what `quiche_h3_send_body` returns to a call, given the calls before it.
module _ (file : Bytes) (accept : List Send → Send → ℤ) where
  -- The bytes that `read` gives at an offset.
  abbrev pub chunk : ℕ → Bytes
  chunk offset = take buf_size (drop offset file)

  -- `fw` after a round of the loop whose call returned `written`.
  unfoldable pub sent : Write → Send → ℤ → Write
  sent fw send written = record fw {
    position = add (fw.position) written;
    eof = send.fin;
    offset = fw.offset + length (send.body);
    sends = fw.sends ++ send ∷ [];
  }

  -- The next call of `quiche_h3_send_body`: `eof` is set when the bytes reach the end.
  unfoldable pub next_send : Write → Send
  next_send fw =
      let body : Bytes = chunk (fw.offset) in
      record {
        body = body;
        fin = fw.eof || not (less (add (fw.position) (pos (length body))) (fw.len));
      }

  -- `written == QUICHE_H3_ERR_DONE`
  abbrev pub is_done : ℤ → Bool
  is_done (pos n) = false
  is_done (negsuc zero) = true
  is_done (negsuc (suc n)) = false

  unfoldable pub body_loop : ℕ → Write → Run Ending
  body_loop zero fw = out_of_fuel
  body_loop (suc fuel) fw =
      let send = next_send fw in
      let written = accept (fw.sends) send in
      let fw' = sent fw send written in
      let rest = body_loop fuel fw' in
      if not (less (fw.position) (fw.len))
      then ok (returned fw)
      else (if is_done written
          then ok (exited fw)
          else if is_int written (length (send.body))
          then rest
          else ok (returned (record fw' { scheduled = true })))

  -- What follows the loop.
  unfoldable pub finish : Ending → Ending
  finish (returned fw) =
      returned (if fw.eof then record fw { scheduled = false; closed = true } else fw)
  finish (exited fw) = exited fw

  -- `lseek(fd, fw->pos, SEEK_SET)`, which a negative position fails.
  abbrev pub seek : Write → ℕ
  seek fw = elim (fw.position) [ pos n ↦ n | negsuc n ↦ fw.offset ]

  unfoldable pub write_body : ℕ → Write → Run Ending
  write_body fuel fw = body_loop fuel (record fw { offset = seek fw }) >>= λ e. ok (finish e)
