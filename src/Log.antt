-- ===== src/Log.antt =====
-- The log of main/log/log.c: messages go into a pipe, whose other end a callback reads.
pub mod Printed
mod Examples
use gfhttpd.Base.{
  ℕ, zero, suc, ◌-◌, Bool, true, false, not, Option, none, some, List, [], ◌∷◌, ◌++◌, Run, ok,
  fault, abort, ◌>>=◌, Bytes, bytes, c_str, length, replicate, get_elem?, ltb, if◌then◌else◌, ℤ,
  pos, negsuc, is_zero, is_negative,
}

-- `level_names`
abbrev pub level_names : List Bytes
level_names =
    bytes "TRACE" ∷ bytes "DEBUG" ∷ bytes "INFO" ∷ bytes "WARN" ∷ bytes "ERROR" ∷ bytes "FATAL" ∷ []

-- `struct log`; `evpipe` says whether the event is there, and the function is the default one.
pub record Logger : Type 0 where
  pub fds_pipe : ℤ × ℤ
  pub level : ℕ
  pub evpipe : Bool

-- A write to a descriptor.
pub record Written : Type 0 where
  pub fd : ℤ
  pub text : Bytes

-- "%-5s"
abbrev pub padded : Bytes → Bytes
padded s = s ++ replicate (5 - length s) b' '

-- What stands before a message. A level without a name is an access out of bounds.
unfoldable pub message_head : Bytes → ℕ → Bytes → Run Bytes
message_head clock level at = elim (get_elem? level_names level) [
  | none ↦ fault
  | some name ↦ ok (clock ++ (b' ' ∷ []) ++ padded name ++ (b' ' ∷ []) ++ at ++ bytes ": ")
]

-- `text` is the message with its arguments put in, and `clock` what `strftime` writes, nothing if
-- there is no local time. `stdout` is 1.
unfoldable pub log_log : Option Logger → ℕ → Bytes → Bytes → Bytes → Run (List Written)
unfolding message_head
log_log none level at text clock =
    ok (record { fd = pos 1; text = text } ∷ record { fd = pos 1; text = bytes "\n" } ∷ [])
log_log (some lplog) level at text clock =
    if ltb level (lplog.level)
    then ok []
    else (message_head clock level at >>= λ head.
        (let fd = (lplog.fds_pipe).1 in
          ok (
            record { fd = fd; text = head }
            ∷ record { fd = fd; text = text }
            ∷ record { fd = fd; text = bytes "\n" }
            ∷ [])))

-- "%.*s" prints up to the first NUL.
unfoldable pub default_log_func : Bytes → Bytes
default_log_func buf = c_str buf

-- What is printed of the bytes that `read` gives before it gives none; `plog` says whether the
-- argument is there.
unfoldable pub write_log_cb : Bool → List Bytes → Bytes
unfolding default_log_func
write_log_cb plog [] = []
write_log_cb plog (buf ∷ rest) =
    let printed = write_log_cb plog rest in if plog then default_log_func buf ++ printed else []

-- What the system answers to `init_log`.
pub record LogSystem : Type 0 where
  pub pipe : ℤ × (ℤ × ℤ)
  pub set_nonblocking : ℤ → ℤ
  pub event_new : Bool
  pub event_add : ℤ

-- The result, and `*plog`; `none` stands for NULL.
unfoldable pub init_log : LogSystem → Option Logger → Run (ℤ × Option Logger)
init_log sys none = ok (negsuc 0, none)
init_log sys (some plog) =
    let (ret, fds) = sys.pipe in
    let plog' : Logger = record plog { fds_pipe = fds } in
    if not (is_zero ret)
    then ok (ret, some (record plog { fds_pipe = fds }))
    else if not (is_zero (sys.set_nonblocking fds.0))
    then ok (sys.set_nonblocking fds.0, some plog')
    else if not (is_zero (sys.set_nonblocking fds.1))
    then ok (sys.set_nonblocking fds.1, some plog')
    else if not (sys.event_new)
    then abort
    else ok (sys.event_add, some (record plog' { evpipe = true }))

-- The descriptors that are closed. The event must be there to be deleted.
unfoldable pub destroy_log : Logger → Run (List ℤ)
destroy_log plog = if plog.evpipe then ok ((plog.fds_pipe).0 ∷ (plog.fds_pipe).1 ∷ []) else fault
