-- ===== src/Pool/Copy.antt =====
-- `mp_calloc` and `mp_strndup`: what stands in the bytes that they hand out.
use gfhttpd.Base.{
  ℕ, zero, suc, ◌+◌, ◌^◌, ◌≤◌, ◌<◌, ◌≡◌, ◌⊎◌, refl, sym, ◌∙◌, true, false, List, [], ◌∷◌, some,
  arith, leb, ◌==◌, length, ok, ==_refl,
}
use gfhttpd.Pool.Heap.{header_size, Blocks, find, Memory, Allocator, ◌>>=◌, update}
use gfhttpd.Pool.{u64, threshold}
use gfhttpd.Pool.Outcome.{Returns, returns, bind}
use gfhttpd.Pool.Invariant.{IsPool}
use mathlib.Core.Path.{subst, ap₂}
use gfhttpd.Base.{Bytes, take, replicate, length-append, length-take, ◌++◌, ap, ◌*◌}
use gfhttpd.Pool.Heap.{in_block, write_all, write_bytes, copy_from, ◌>>◌, pure}
use gfhttpd.Pool.{mp_calloc, mp_strndup}
use gfhttpd.Pool.Alloc.{OutOfMemory, mp_alloc-Allocated}
use gfhttpd.Pool.Bump.{Allocated}

-- The `k` bytes from `p` on.
abbrev pub read_all : (ℕ → ℕ) → ℕ → ℕ → Bytes
read_all f p zero = []
read_all f p (suc k) = f p ∷ read_all f (p + 1) k

write_all_outside :
    (f : ℕ → ℕ) (p a : ℕ) (vs : Bytes) → (a < p) ⊎ (p + length vs ≤ a) → write_all f p vs a ≡ f a
write_all_outside f p a [] h = refl
write_all_outside f p a (v ∷ vs) h =
    let other : (a == p) ≡ false = ground arith in
    write_all_outside (update f p v) (p + 1) a vs (omega arith) ∙ rw other

read_all-write_all :
    (f : ℕ → ℕ) (p : ℕ) (vs : Bytes) → read_all (write_all f p vs) p (length vs) ≡ vs
read_all-write_all f p [] = refl
read_all-write_all f p (v ∷ vs) = rw (
  write_all_outside (update f p v) (p + 1) p vs (omega arith),
  ==_refl p,
  read_all-write_all (update f p v) (p + 1) vs,
)

in_block_of_live :
    (b size p n : ℕ) (bs : Blocks)
    → find b bs ≡ some size
    → b ≤ p
    → p + n ≤ b + size
    → in_block p n bs ≡ true
in_block_of_live b size p n [] e lo hi = absurd (ground arith)
in_block_of_live b size p n ((c, s) ∷ bs) e lo hi = ground (arith, in_block_of_live b size p n bs)

write_all-append :
    (f : ℕ → ℕ) (p : ℕ) (xs ys : Bytes)
    → write_all f p (xs ++ ys) ≡ write_all (write_all f p xs) (p + length xs) ys
write_all-append f p [] ys = let e : p + 0 ≡ p = omega arith in rw e
write_all-append f p (x ∷ xs) ys =
    let e : p + suc (length xs) ≡ p + 1 + length xs = omega arith in
    rw e (write_all-append (update f p x) (p + 1) xs ys)

length-replicate : (n v : ℕ) → length (replicate n v) ≡ n
length-replicate zero v = refl
length-replicate (suc n) v = omega (arith, length-replicate n v)

write_bytes-ok :
    (p : ℕ) (vs : Bytes) (m : Memory)
    → in_block p (length vs) m.blocks ≡ true
    → write_bytes p vs m ≡ ok (tt, record m { byte = write_all m.byte p vs })
unfolding write_bytes
write_bytes-ok p vs m e = rw e

-- `n` bytes from `p` on are newly handed out and hold `vs`; no other byte has changed.
pub record Filled (n : ℕ) (vs : Bytes) (mp : ℕ) (cs fs : List ℕ) (m : Memory) (p : ℕ) (m' : Memory)
    : Type 0 where
  pub mid : Memory
  pub allocated : Allocated n mp cs fs m p mid
  pub final : m' ≡ record mid { byte = m'.byte }
  pub size : length vs ≡ n
  pub content : read_all m'.byte p n ≡ vs
  pub outside : (a : ℕ) → (a < p) ⊎ (p + n ≤ a) → m'.byte a ≡ m.byte a

-- The bytes of a new allocation are written.
module _ (n : ℕ) (vs : Bytes) (mp : ℕ) (cs fs : List ℕ) (m : Memory) (p : ℕ) (mid : Memory)
    (d : Allocated n mp cs fs m p mid) where
  in_block-Allocated : (q k : ℕ) → p ≤ q → q + k ≤ p + n → in_block q k mid.blocks ≡ true
  in_block-Allocated q k lo hi =
      in_block_of_live d.block d.size q k mid.blocks d.live (omega (arith, d.low))
        (omega (arith, d.high))

  filled :
      (f : ℕ → ℕ)
      → ((a : ℕ) → (a < p) ⊎ (p + n ≤ a) → f a ≡ m.byte a)
      → length vs ≡ n
      → Filled n vs mp cs fs m p (record mid { byte = write_all f p vs })
  filled f same size = record {
    mid = mid;
    allocated = d;
    final = refl;
    size = size;
    content = rw (← size) (read_all-write_all f p vs);
    outside = λ a h. write_all_outside f p a vs (omega arith) ∙ same a h;
  }

-- The two writes of `mp_strndup` into the bytes of `mp_calloc`.
module _ (n : ℕ) (zs : Bytes) (mp : ℕ) (cs fs : List ℕ) (m : Memory) (p : ℕ) (m' : Memory)
    (d : Filled (n + 1) zs mp cs fs m p m') (s1 : Bytes) (fits : n ≤ length s1) where
  abbrev copied : Memory
  copied = record m' { byte = write_all (write_all m'.byte p (take n s1)) (p + n) (0 ∷ []) }

  in_block-Filled : (q k : ℕ) → p ≤ q → q + k ≤ p + (n + 1) → in_block q k m'.blocks ≡ true
  in_block-Filled q k lo hi =
      ap (λ (r : Memory). in_block q k r.blocks) d.final
      ∙ in_block-Allocated (n + 1) zs mp cs fs m p d.mid d.allocated q k lo hi

  copy-ok :
      (copy_from s1 n >>= λ bs. write_bytes p bs >> (write_bytes (p + n) (0 ∷ []) >> pure p)) m'
      ≡ ok (p, copied)
  copy-ok =
      let e : leb n (length s1) ≡ true = ground arith in
      let len = length-take n s1 fits in
      rw
        (
          e,
          write_bytes-ok p (take n s1) m'
              (rw len (in_block-Filled p n (omega arith) (omega arith))),
          write_bytes-ok (p + n) (0 ∷ []) (record m' { byte = write_all m'.byte p (take n s1) })
              (in_block-Filled (p + n) 1 (omega arith) (omega arith)),
        )
        refl

  copied-Filled : Filled (n + 1) (take n s1 ++ 0 ∷ []) mp cs fs m p copied
  copied-Filled =
      let len = length-take n s1 fits in
      let vs : Bytes = take n s1 ++ 0 ∷ [] in
      let size : length vs ≡ n + 1 = omega (arith, length-append (take n s1) (0 ∷ [])) in
      let byte : write_all m'.byte p vs ≡ copied.byte =
        write_all-append m'.byte p (take n s1) (0 ∷ []) ∙ rw len in
      let e : record d.mid { byte = write_all m'.byte p vs } ≡ copied =
        ap₂ (λ (r : Memory) (f : ℕ → ℕ). record r { byte = f }) (sym d.final) byte in
      subst (Filled (n + 1) vs mp cs fs m p) e
        (filled (n + 1) vs mp cs fs m p d.mid d.allocated m'.byte d.outside size)

module _ (a : Allocator) (mp fuel : ℕ) (m : Memory) (cs fs : List ℕ) (pool : IsPool m mp cs fs)
    (enough : threshold + 2 ≤ fuel) where
  -- `mp_calloc` hands out zeroed bytes, and changes no other byte.
  pub mp_calloc-Filled :
      (count nbytes : ℕ)
      → 0 < count
      → 0 < count * nbytes
      → header_size + count * nbytes < 2 ^ 64
      → Returns
          (OutOfMemory a (count * nbytes) mp m)
          (Filled (count * nbytes) (replicate (count * nbytes) 0) mp cs fs m)
          (mp_calloc a fuel mp count nbytes m)
  unfolding mp_calloc
  mp_calloc-Filled count nbytes pos total small =
      let n = count * nbytes in
      let e : (count == 0) ≡ false = ground arith in
      let fits : u64 n ≡ n = omega arith in
      rw (e, fits)
        (bind (mp_alloc-Allocated a mp n small fuel m cs fs pool total enough) λ p mid d.
          let zeros : Bytes = replicate n 0 in
          let size = length-replicate n 0 in
          rw
            (write_bytes-ok p zeros mid (
              rw size
                (in_block-Allocated n zeros mp cs fs m p mid d p n (omega arith) (omega arith))))
            (returns (
              filled n zeros mp cs fs m p mid d mid.byte (λ a h. ap (λ f. f a) d.spared.bytes)
                size)))

  -- `mp_strndup` hands out `n + 1` bytes that hold the first `n` bytes of its argument and a NUL,
  -- and changes no other byte. It aborts only if the pool's chunk has no room for them and
  -- `posix_memalign` refuses a block for a header and as many bytes.
  pub mp_strndup-Filled :
      (s1 : Bytes) (n : ℕ)
      → n ≤ length s1
      → header_size + (n + 1) < 2 ^ 64
      → Returns
          (OutOfMemory a (n + 1) mp m)
          (Filled (n + 1) (take n s1 ++ 0 ∷ []) mp cs fs m)
          (mp_strndup a fuel mp s1 n m)
  unfolding mp_strndup
  mp_strndup-Filled s1 n fits small =
      let one : (n + 1) * 1 ≡ n + 1 = omega arith in
      let u : u64 (n + 1) ≡ n + 1 = omega arith in
      let got = mp_calloc-Filled (n + 1) 1 (omega arith) (omega arith) (omega arith) in
      let got' : Returns (OutOfMemory a (n + 1) mp m)
          (Filled (n + 1) (replicate (n + 1) 0) mp cs fs m) (mp_calloc a fuel mp (n + 1) 1 m) =
        rw one at got in
      rw u (
        bind got' λ p m' d.
          rw (copy-ok n _ mp cs fs m p m' d s1 fits)
            (returns (copied-Filled n _ mp cs fs m p m' d s1 fits)))
