-- ===== src/Router/Calls.antt =====
-- The system and event-loop calls of main/router/router.c: what they answer, and a log of those
-- that matter to others.
use gfhttpd.Base.{Bytes, ℤ}

-- The answers of one run. A call that makes two descriptors answers with its result and the
-- pair.
pub record System : Type 0 where
  pub socketpair : ℤ × (ℤ × ℤ)
  pub set_nonblocking : ℤ → ℤ
  pub evtimer_add : ℤ
  pub open_fd : Bytes → ℤ
  pub lseek_end : ℤ → ℤ
  pub pipe : ℤ × (ℤ × ℤ)
  pub write : ℤ → Bytes → ℤ

pub data Call : Type 0 where
  opened : Bytes → Call
  scheduled : Call
  piped : Call
  wrote : ℤ → Bytes → Call
  closed : ℤ → Call
