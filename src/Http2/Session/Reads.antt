-- ===== src/Http2/Session/Reads.antt =====
-- `file_read_callback` of main/http2/event_cb.c.
use gfhttpd.Base.{
  ℕ, zero, suc, ◌≡◌, refl, Bool, true, false, not, ◌||◌, ◌&&◌, List, [], ◌∷◌, ◌++◌, replicate, Run,
  ok, out_of_fuel, ◌==◌, Bool-cases, inl, inr, ◌∙◌, arith, if◌then◌else◌, ℤ, pos, negsuc,
}

-- The values of `errno` that matter.
pub data Errno : Type 0 where
  eintr : Errno
  eagain : Errno
  other_errno : Errno

-- What `read` answers: a number of bytes, or -1 with `errno`.
pub data ReadAnswer : Type 0 where
  got : ℕ → ReadAnswer
  failed : Errno → ReadAnswer

abbrev pub is_eagain : Errno → Bool
is_eagain eagain = true
is_eagain eintr = false
is_eagain other_errno = false

-- NGHTTP2_ERR_TEMPORAL_CALLBACK_FAILURE
abbrev pub temporal_failure : ℤ
temporal_failure = negsuc 520

-- What the callback returns, and whether it sets NGHTTP2_DATA_FLAG_EOF. `errno` is what it was
-- before; EAGAIN and EWOULDBLOCK are one number. The answers are those of the calls to come.
unfoldable pub file_read_callback : Errno → List ReadAnswer → Run (ℤ × Bool)
file_read_callback errno [] = out_of_fuel
file_read_callback errno (failed eintr ∷ answers) = file_read_callback eintr answers
file_read_callback errno (failed eagain ∷ answers) = ok (pos 0, false)
file_read_callback errno (failed other_errno ∷ answers) = ok (temporal_failure, false)
file_read_callback errno (got n ∷ answers) =
    ok (pos n, (n == 0) && (not (is_eagain errno) || not (is_eagain errno)))

abbrev pub is_some_of : ℕ → Bool
is_some_of zero = false
is_some_of (suc n) = true

-- What the callback makes of the first answer that is no EINTR, after `interrupted` of those.
abbrev pub expected : Errno → ℕ → ReadAnswer → ℤ × Bool
expected errno interrupted (failed eintr) = (temporal_failure, false)
expected errno interrupted (failed eagain) = (pos 0, false)
expected errno interrupted (failed other_errno) = (temporal_failure, false)
expected errno interrupted (got n) =
    (pos n, (n == 0) && (is_some_of interrupted || not (is_eagain errno)))

abbrev pub is_eintr : ReadAnswer → Bool
is_eintr (failed eintr) = true
is_eintr (failed eagain) = false
is_eintr (failed other_errno) = false
is_eintr (got n) = false

last_read :
    (errno : Errno) (n : ℕ) (answer : ReadAnswer) (answers : List ReadAnswer)
    → is_eintr answer ≡ false
    → file_read_callback (if is_some_of n then eintr else errno) (answer ∷ answers)
      ≡ ok (expected errno n answer)
unfolding file_read_callback
last_read errno n (failed eintr) answers final = absurd (ground arith)
last_read errno n (failed eagain) answers final = refl
last_read errno n (failed other_errno) answers final = refl
last_read errno zero (got k) answers final = ground arith
last_read errno (suc n) (got k) answers final = ground arith

eintr_again :
    (n : ℕ) (answer : ReadAnswer) (answers : List ReadAnswer)
    → file_read_callback (if is_some_of n then eintr else eintr) (answer ∷ answers)
      ≡ file_read_callback eintr (answer ∷ answers)
eintr_again n answer answers = elim (Bool-cases (is_some_of n)) [ inl e ↦ rw e | inr e ↦ rw e ]

interrupted_reads :
    (errno : Errno) (interrupted : ℕ) (answer : ReadAnswer) (answers : List ReadAnswer)
    → file_read_callback errno (replicate interrupted (failed eintr) ++ answer ∷ answers)
      ≡ file_read_callback (if is_some_of interrupted then eintr else errno) (answer ∷ answers)
unfolding file_read_callback
interrupted_reads errno zero answer answers = refl
interrupted_reads errno (suc n) answer answers =
    interrupted_reads eintr n answer answers ∙ eintr_again n answer answers

-- However often a read is interrupted, the callback repeats it until it gets another answer, and
-- returns: the number of bytes, 0 for EAGAIN, and the error of the callback for another failure.
-- The end of the file is flagged for a read of 0 bytes, unless `errno` still holds EAGAIN from an
-- earlier call and no read was interrupted: then 0 is returned without the flag.
pub file_read_callback-expected :
    (errno : Errno) (interrupted : ℕ) (answer : ReadAnswer) (answers : List ReadAnswer)
    → is_eintr answer ≡ false
    → file_read_callback errno (replicate interrupted (failed eintr) ++ answer ∷ answers)
      ≡ ok (expected errno interrupted answer)
unfolding file_read_callback
file_read_callback-expected errno n answer answers final =
    interrupted_reads errno n answer answers ∙ last_read errno n answer answers final
