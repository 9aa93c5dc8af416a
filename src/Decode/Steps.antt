-- ===== src/Decode/Steps.antt =====
-- One read, one write and one round of the loop of `percent_decode`, in bounds.
use gfhttpd.Base.{
  ℕ, suc, ◌+◌, ◌-◌, ◌*◌, ◌%◌, ◌≤◌, ◌<◌, ◌≡◌, refl, true, false, [], ◌∷◌, ◌++◌, arith, ok, ◌>>=◌,
  Bytes, length, get_elem?, drop, ltb, get_elem?-drop, drop-drop, length-append, lt→ltb, sym, ◌∙◌,
  some,
}
use mathlib.Core.List.{append_assoc}
use gfhttpd.Decode.{hex_to_uint, read, put, escape_at, decode_step, decode_loop, finish}
use gfhttpd.Decode.Reference.{is_escape}

-- Reads and writes that are in bounds.
pub read-ok :
    (buf s : Bytes) (i j k b : ℕ)
    → drop i buf ≡ s
    → get_elem? s k ≡ some b
    → j ≡ i + k
    → read buf j ≡ ok b
read-ok buf s i j k b e h at =
    let g : get_elem? buf (i + k) ≡ some b = sym (get_elem?-drop i k buf) ∙ (rw e h) in
    rw at (rw (g, read))

pub put-ok : (size b : ℕ) (out : Bytes) → length out < size → put size out b ≡ ok (out ++ b ∷ [])
put-ok size b out h = rw (lt→ltb _ _ h)

pub drop-step : (buf s : Bytes) (i k : ℕ) → drop i buf ≡ s → drop (i + k) buf ≡ drop k s
drop-step buf s i k e = sym (drop-drop i k buf) ∙ rw e

module _ (buf t : Bytes) (i : ℕ) (c a b : ℕ) (h : drop i buf ≡ c ∷ a ∷ b ∷ t) where
  read_0 : read buf i ≡ ok c
  read_0 = read-ok buf _ i i 0 c h refl (omega arith)

  read_1 : read buf (i + 1) ≡ ok a
  read_1 = read-ok buf _ i _ 1 a h refl refl

  read_2 : read buf (i + 2) ≡ ok b
  read_2 = read-ok buf _ i _ 2 b h refl refl

  escape_at-ok : escape_at buf i ≡ ok (is_escape c a b)
  unfolding escape_at
  escape_at-ok = ground (arith, read_0, read_1, read_2)

  module _ (size : ℕ) (out : Bytes) (room : length out < size) where
    pub decode_step-literal :
        is_escape c a b ≡ false → decode_step buf size (i, out) ≡ ok (i + 1, out ++ c ∷ [])
    unfolding decode_step
    decode_step-literal e = rw (escape_at-ok, e, read_0, put-ok size c out room)

    pub decode_step-escape :
        is_escape c a b ≡ true
        → decode_step buf size (i, out)
          ≡ ok (i + 3, out ++ ((hex_to_uint a * 16 + hex_to_uint b) % 256) ∷ [])
    unfolding decode_step
    decode_step-escape e = rw (escape_at-ok, e, read_1, read_2, put-ok size _ out room)

-- What `finish` writes when the loop stops with `two` at `i`.
pub finish-ok :
    (buf t out : Bytes) (n i a b : ℕ)
    → drop i buf ≡ a ∷ b ∷ t
    → length out + 2 ≤ n
    → finish buf n (i, out) ≡ ok (out ++ a ∷ b ∷ 0 ∷ [])
unfolding finish
finish-ok buf t out n i a b h room =
    let one = length-append out (a ∷ []) in
    let two = length-append (out ++ a ∷ []) (b ∷ []) in
    rw
      (
        read-ok buf _ i i 0 a h refl (omega arith),
        read-ok buf _ i _ 1 b h refl refl,
        put-ok (n + 1) a out (omega arith),
        put-ok (n + 1) b (out ++ a ∷ []) (omega arith),
        put-ok (n + 1) 0 ((out ++ a ∷ []) ++ b ∷ []) (omega arith),
      )
      (simp append_assoc)

pub decode_loop-stop :
    (f n i : ℕ) (buf out : Bytes) → n ≤ i + 2 → decode_loop (suc f) buf n (i, out) ≡ ok (i, out)
unfolding decode_loop
decode_loop-stop f n i buf out h =
    let e : ltb i (n - 2) ≡ false = ground arith in rw (e, decode_loop)

pub decode_loop-next :
    (f n i : ℕ) (buf out : Bytes)
    → i + 2 < n
    → decode_loop (suc f) buf n (i, out)
      ≡ (decode_step buf (n + 1) (i, out) >>= decode_loop f buf n)
unfolding decode_loop
decode_loop-next f n i buf out h =
    let e : ltb i (n - 2) ≡ true = ground arith in rw (e, decode_loop)
