-- ===== src/Log/Printed.antt =====
-- What is printed of a message that main/log/log.c logs.
use gfhttpd.Base.{
  ℕ, zero, suc, ◌≢◌, ◌≡◌, refl, sym, ◌∙◌, true, some, List, [], ◌∷◌, ◌++◌, ok, Bytes, bytes, c_str,
  All, ltb, get_elem?, if◌then◌else◌, Bool-cases, inl, inr,
}
use mathlib.Core.Path.{subst}
use gfhttpd.Log.{
  level_names, Logger, Written, padded, message_head, log_log, default_log_func, write_log_cb,
}

-- A text without a NUL.
abbrev pub IsText : Bytes → Type 0
IsText s = All (λ c. c ≢ 0) s

abbrev pub joined : List Bytes → Bytes
joined [] = []
joined (s ∷ rest) = s ++ joined rest

abbrev pub written_text : List Written → Bytes
written_text [] = []
written_text (w ∷ rest) = w.text ++ written_text rest

c_str-IsText : (s : Bytes) → IsText s → c_str s ≡ s
c_str-IsText [] h = refl
c_str-IsText (zero ∷ s) (n, h) = absurd (n refl)
c_str-IsText (suc c ∷ s) (n, h) = rw (c_str-IsText s h)

IsText-split : (s t : Bytes) → IsText (s ++ t) → IsText s × IsText t
IsText-split [] t h = (tt, h)
IsText-split (c ∷ s) t (n, h) = let (hs, ht) = IsText-split s t h in ((n, hs), ht)

-- However the bytes of the pipe come in pieces, all of a text is printed in order.
write_log_cb-joined :
    (pieces : List Bytes) → IsText (joined pieces) → write_log_cb true pieces ≡ joined pieces
unfolding write_log_cb default_log_func
write_log_cb-joined [] h = refl
write_log_cb-joined (s ∷ rest) h =
    let (hs, ht) = IsText-split s (joined rest) h in
    rw (c_str-IsText s hs, write_log_cb-joined rest ht)

abbrev head_of : Bytes → Bytes → Bytes → Bytes
head_of clock name at = clock ++ (b' ' ∷ []) ++ padded name ++ (b' ' ∷ []) ++ at ++ bytes ": "

-- A line of the log.
abbrev pub line : Bytes → Bytes → Bytes → Bytes → Bytes
line clock name at text =
    (clock ++ (b' ' ∷ []) ++ padded name ++ (b' ' ∷ []) ++ at ++ bytes ": ")
    ++ (text ++ (bytes "\n" ++ []))

-- A message below the level of the log writes nothing. Any other, of a level with a name, goes to
-- the write end of the pipe and nowhere else, and if it has no NUL, what `write_log_cb` prints of
-- the pipe's bytes, in whatever pieces they are read, is one line with the time, the name of the
-- level in five columns, the place and the text.
pub log_log-printed :
    (lplog : Logger) (level : ℕ) (name at text clock : Bytes) (pieces : List Bytes)
    → get_elem? level_names level ≡ some name
    → IsText (line clock name at text)
    → joined pieces ≡ line clock name at text
    → (writes : List Written) × (log_log (some lplog) level at text clock ≡ ok writes)
      × All (λ w. w.fd ≡ (lplog.fds_pipe).1) writes
      × (if ltb level (lplog.level)
          then writes ≡ []
          else (written_text writes ≡ joined pieces)
            × (write_log_cb true pieces ≡ line clock name at text))
unfolding log_log message_head
log_log-printed lplog level name at text clock pieces named is_text same =
    elim (Bool-cases (ltb level (lplog.level))) [
      | inl low ↦ ([], rw (low, log_log), tt, rw low refl)
      | inr high ↦
          (let printed = write_log_cb-joined pieces (subst IsText (sym same) is_text) in
            (
              record { fd = (lplog.fds_pipe).1; text = head_of clock name at }
                  ∷ record { fd = (lplog.fds_pipe).1; text = text }
                  ∷ record { fd = (lplog.fds_pipe).1; text = bytes "\n" }
                  ∷ [],
              rw (high, log_log) (rw (named, message_head)),
              (refl, (refl, (refl, tt))),
              rw high (sym same, printed ∙ same),
            ))
    ]
