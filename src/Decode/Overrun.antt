-- ===== src/Decode/Overrun.antt =====
-- When `percent_decode` reads past its text.
use gfhttpd.Base.{
  ℕ, zero, suc, ◌+◌, ◌-◌, ◌*◌, ◌%◌, ◌≤◌, ◌<◌, ◌≡◌, ◌≢◌, refl, [], ◌∷◌, ◌++◌, arith, ok, fault,
  ◌>>=◌, Bytes, length, get_elem?, drop, Bool-cases, inl, inr, length-append, lt→ltb,
  get_elem?-drop, sym, ◌∙◌, none,
}
use mathlib.Core.List.{append-nil}
use gfhttpd.Decode.{hex_to_uint, read, decode_loop, copy_two, finish, percent_decode}
use gfhttpd.Decode.Reference.{decoded, overrun, is_escape, overrun-escape, overrun-literal}
use gfhttpd.Decode.Steps.{
  read-ok, drop-step, decode_step-escape, decode_step-literal, decode_loop-stop, decode_loop-next,
}
use gfhttpd.Decode.Result.{percent_decode-result, result}

-- No percent sign stands among the last four bytes.
abbrev pub HasNoLatePercent : Bytes → Type 0
HasNoLatePercent [] = Unit
HasNoLatePercent (c ∷ s) = (c ≡ b'%' → 4 ≤ length s) × HasNoLatePercent s

overrun-eq-zero : (w : Bytes) → 2 ≤ length w → HasNoLatePercent w → overrun w ≡ 0
overrun-eq-zero [] two h = absurd (omega arith)
overrun-eq-zero (a ∷ []) two h = absurd (omega arith)
overrun-eq-zero (a ∷ b ∷ []) two h = unfold overrun in refl
overrun-eq-zero (c ∷ a ∷ b ∷ w) two (far, h) = elim (Bool-cases (is_escape c a b)) [
  | inl escape ↦
      let four = far (ground arith) in
      overrun-escape c a b w escape ∙ overrun-eq-zero w (omega arith) h.1.1
  | inr literal ↦ overrun-literal c a b w literal ∙ overrun-eq-zero (a ∷ b ∷ w) (omega arith) h
]

-- A text of more than three bytes, none of the last four a percent sign, is decoded exactly.
pub percent_decode-decoded :
    (w t : Bytes)
    → 3 < length w
    → 2 ≤ length t
    → HasNoLatePercent w
    → percent_decode (w ++ t) (length w) ≡ ok (decoded w ++ 0 ∷ [])
percent_decode-decoded w t long two h =
    let e : result w t ≡ decoded w =
      rw (lt→ltb 3 (length w) long, overrun-eq-zero w (omega arith) h) (append-nil _) in
    percent_decode-result w t two ∙ rw e

-- A read behind the last byte of the buffer.
read-fault : (buf : Bytes) (i : ℕ) → drop i buf ≡ [] → read buf i ≡ fault
read-fault buf i h =
    let g : get_elem? buf (i + 0) ≡ none = sym (get_elem?-drop i 0 buf) ∙ (rw h) in
    let e : i + 0 ≡ i = omega arith in rw (rw e at g, read)

-- The loop on a text at the end of the buffer.
decode_loop-fault :
    (f n i : ℕ) (buf w out : Bytes)
    → drop i buf ≡ w
    → n ≡ i + length w
    → length out + (2 - length w) ≤ i
    → length w < f
    → overrun w ≢ 0
    → (decode_loop f buf n (i, out) >>= finish buf n) ≡ fault
decode_loop-fault zero n i buf w out h e room fuel over = absurd (omega arith)
decode_loop-fault (suc f) n i buf [] out h e room fuel over =
    rw (decode_loop-stop f n i buf out (omega arith))
      (unfold finish copy_two in rw (read-fault buf i h))
decode_loop-fault (suc f) n i buf (a ∷ []) out h e room fuel over =
    rw (decode_loop-stop f n i buf out (omega arith)) (
      unfold finish copy_two in
      rw (
        read-ok buf _ i i 0 a h refl (omega arith),
        read-fault buf (i + 1) (drop-step buf _ i 1 h),
      ))
decode_loop-fault (suc f) n i buf (a ∷ b ∷ []) out h e room fuel over =
    absurd (over (unfold overrun in refl))
decode_loop-fault (suc f) n i buf (c ∷ a ∷ b ∷ w) out h e room fuel over =
    rw (decode_loop-next f n i buf out (omega arith)) (elim (Bool-cases (is_escape c a b)) [
      | inl escape ↦
          let v = (hex_to_uint a * 16 + hex_to_uint b) % 256 in
          rw (decode_step-escape buf w i c a b h (n + 1) out (omega arith) escape) (
            decode_loop-fault f n (i + 3) buf w (out ++ v ∷ []) (drop-step buf _ i 3 h)
              (omega arith) (omega (arith, length-append out (v ∷ []))) (omega arith)
              (λ z. over (overrun-escape c a b w escape ∙ z)))
      | inr literal ↦ rw (decode_step-literal buf w i c a b h (n + 1) out (omega arith) literal) (
          decode_loop-fault f n (i + 1) buf (a ∷ b ∷ w) (out ++ c ∷ []) (drop-step buf _ i 1 h)
            (omega arith) (omega (arith, length-append out (c ∷ []))) (omega arith)
            (λ z. over (overrun-literal c a b w literal ∙ z)))
    ])

-- On a buffer that ends with its text of more than three bytes, `percent_decode` reads out of
-- bounds if an escape ends the text or leaves one byte behind it.
pub percent_decode-fault :
    (w : Bytes) → 3 < length w → overrun w ≢ 0 → percent_decode w (length w) ≡ fault
unfolding percent_decode
percent_decode-fault w long over = rw (lt→ltb 3 (length w) long) (
    decode_loop-fault (length w + 1) (length w) 0 w w [] refl (omega arith) (omega arith)
      (omega arith) over)
