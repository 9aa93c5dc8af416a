-- ===== src/Decode/Result.antt =====
-- What `percent_decode` returns.
use gfhttpd.Base.{
  ℕ, zero, suc, ◌+◌, ◌-◌, ◌*◌, ◌%◌, ◌≤◌, ◌<◌, ◌≡◌, refl, [], ◌∷◌, ◌++◌, arith, ok, ◌>>=◌, Bytes,
  length, take, drop, ltb, if◌then◌else◌, length-append, ltb→lt, Bool-cases, inl, inr,
}
use mathlib.Core.List.{append_assoc, append-nil}
use gfhttpd.Decode.{hex_to_uint, decode_loop, copy_all, finish, percent_decode}
use gfhttpd.Decode.Reference.{
  decoded, overrun, is_escape, decoded-escape, decoded-literal, overrun-escape, overrun-literal,
}
use gfhttpd.Decode.Steps.{
  read-ok, put-ok, drop-step, decode_step-escape, decode_step-literal, decode_loop-stop,
  decode_loop-next, finish-ok,
}

-- The whole run from the position `i`, where the text `w` is left and `t` follows it.
decode_loop-decoded :
    (f n i : ℕ) (buf w t out : Bytes)
    → drop i buf ≡ w ++ t
    → n ≡ i + length w
    → 2 ≤ length t
    → length out + (2 - length w) ≤ i
    → length w < f
    → (decode_loop f buf n (i, out) >>= finish buf n)
      ≡ ok (out ++ (decoded w ++ (take (overrun w) t ++ 0 ∷ [])))
unfolding decoded overrun
decode_loop-decoded zero n i buf w t out h e two room fuel = absurd (omega arith)
decode_loop-decoded (suc f) n i buf [] (x ∷ y ∷ t) out h e two room fuel =
    rw (decode_loop-stop f n i buf out (omega arith)) (finish-ok buf t out n i x y h (omega arith))
decode_loop-decoded (suc f) n i buf [] t out h e two room fuel = absurd (omega arith)
decode_loop-decoded (suc f) n i buf (a ∷ []) (x ∷ t) out h e two room fuel =
    rw (decode_loop-stop f n i buf out (omega arith)) (finish-ok buf t out n i a x h (omega arith))
decode_loop-decoded (suc f) n i buf (a ∷ []) t out h e two room fuel = absurd (omega arith)
decode_loop-decoded (suc f) n i buf (a ∷ b ∷ []) t out h e two room fuel =
    rw (decode_loop-stop f n i buf out (omega arith)) (finish-ok buf t out n i a b h (omega arith))
decode_loop-decoded (suc f) n i buf (c ∷ a ∷ b ∷ w) t out h e two room fuel =
    rw (decode_loop-next f n i buf out (omega arith)) (elim (Bool-cases (is_escape c a b)) [
      | inl escape ↦
          let v = (hex_to_uint a * 16 + hex_to_uint b) % 256 in
          rw
            (
              decode_step-escape buf (w ++ t) i c a b h (n + 1) out (omega arith) escape,
              decoded-escape c a b w escape,
              overrun-escape c a b w escape,
              decode_loop-decoded f n (i + 3) buf w t (out ++ v ∷ []) (drop-step buf _ i 3 h)
                  (omega arith) two (omega (arith, length-append out (v ∷ []))) (omega arith),
            )
            (simp append_assoc)
      | inr literal ↦
          rw
            (
              decode_step-literal buf (w ++ t) i c a b h (n + 1) out (omega arith) literal,
              decoded-literal c a b w literal,
              overrun-literal c a b w literal,
              decode_loop-decoded f n (i + 1) buf (a ∷ b ∷ w) t (out ++ c ∷ [])
                  (drop-step buf _ i 1 h) (omega arith) two
                  (omega (arith, length-append out (c ∷ []))) (omega arith),
            )
            (simp append_assoc)
    ])

copy_all-ok :
    (size i : ℕ) (buf w t out : Bytes)
    → drop i buf ≡ w ++ t
    → length out + length w ≤ size
    → copy_all size buf (length w) i out ≡ ok (out ++ w)
unfolding copy_all
copy_all-ok size i buf [] t out h room = rw append-nil
copy_all-ok size i buf (c ∷ w) t out h room =
    rw
      (
        read-ok buf _ i i 0 c h refl (omega arith),
        put-ok size c out (omega arith),
        copy_all-ok size (i + 1) buf w t (out ++ c ∷ []) (drop-step buf _ i 1 h)
            (omega (arith, length-append out (c ∷ []))),
      )
      (simp append_assoc)

-- What `percent_decode` makes of the text `w`, if the memory goes on with `t`.
abbrev pub result : Bytes → Bytes → Bytes
result w t = if ltb 3 (length w) then decoded w ++ take (overrun w) t else w

-- With two more bytes to read after the text `w`, `percent_decode` stays in bounds, and returns
-- the decoded text, followed by as many of the bytes after it as `overrun` says, and a NUL. Of
-- a text of at most three bytes it returns a copy.
pub percent_decode-result :
    (w t : Bytes) → 2 ≤ length t → percent_decode (w ++ t) (length w) ≡ ok (result w t ++ 0 ∷ [])
unfolding percent_decode
percent_decode-result w t two = elim (Bool-cases (ltb 3 (length w))) [
  | inl long ↦
      rw
        (
          long,
          decode_loop-decoded (length w + 1) (length w) 0 (w ++ t) w t [] refl (omega arith) two
              (omega (arith, ltb→lt _ _ long)) (omega arith),
        )
        (simp append_assoc)
  | inr short ↦
      rw
        (
          short,
          copy_all-ok (length w + 1) 0 (w ++ t) w t [] refl (omega arith),
          put-ok (length w + 1) 0 w (omega arith),
        )
        refl
]
