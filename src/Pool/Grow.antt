-- ===== src/Pool/Grow.antt =====
-- One round of the loop of `mp_alloc` adds a chunk to the pool.
use gfhttpd.Base.{
  ℕ, ◌+◌, ◌^◌, ◌<◌, ◌≡◌, ◌≢◌, ◌⊎◌, ◌↔◌, inl, inr, refl, sym, true, false, List, [], ◌∷◌, none,
  arith, ◌==◌, length, Option-cases, ==_refl,
}
use mathlib.Core.Path.{subst}
use gfhttpd.Pool.Heap.{header_size, Memory, Allocator, holds_header}
use gfhttpd.Pool.{u64, room, add_chunk}
use gfhttpd.Pool.Outcome.{Returns, returns, aborts}
use gfhttpd.Pool.Invariant.{NotIn, Chunk, IsPool, UsedBy, Extends, Chunk-live, base-live}
use gfhttpd.Pool.Rounds.{popped, claimed, add_chunk-free, add_chunk-none, add_chunk-new}
use gfhttpd.Pool.Link.{
  claimed-IsPool, popped-IsPool, linked-IsPool, linked-Used, IsChain-NotIn, Extends-refl,
  Extends-claim,
}

-- `posix_memalign` refuses a block for a header and `n` bytes beside those that are live.
abbrev pub Refuses : Allocator → ℕ → Memory → Type 0
Refuses a n m = a.place m.blocks (header_size + n) ≡ none

-- Chunks that are neither the pool's first one nor free keep their headers, and stay live.
pub record Spares (mp : ℕ) (fs : List ℕ) (m m' : Memory) : Type 0 where
  pub live : Extends m.blocks m'.blocks
  pub headers :
      (q : ℕ) → holds_header q m.blocks ≡ true → q ≢ mp → NotIn q fs → m'.header q ≡ m.header q
  pub bytes : m'.byte ≡ m.byte

-- The pool has one chunk more, none of it handed out.
pub record Grown (nbytes mp : ℕ) (cs fs : List ℕ) (m m' : Memory) : Type 0 where
  pub ptr : ℕ
  pub left : List ℕ
  pub pool : IsPool m' mp (ptr ∷ cs) left
  pub spared : Spares mp fs m m'
  pub used : (a : ℕ) → UsedBy m' mp (ptr ∷ cs) a ↔ UsedBy m mp cs a
  pub progress :
      ((length left < length fs) × (m'.blocks ≡ m.blocks)) ⊎ (room (m'.header mp) ≡ nbytes)
  pub fewer : (q : ℕ) → NotIn q fs → NotIn q left

module _ (a : Allocator) (m : Memory) (mp nbytes : ℕ) (cs : List ℕ) where
  take_free :
      (fs : List ℕ)
      → IsPool m mp cs (m.freechunks ∷ fs)
      → Returns
          (Refuses a nbytes m)
          (λ _. Grown nbytes mp cs (m.freechunks ∷ fs) m)
          (add_chunk a mp nbytes m)
  take_free fs pool =
      let chunk = pool.idle.1 in
      let live = Chunk-live chunk in
      let ne : m.freechunks ≢ mp = pool.mp_fs.0 in
      let found : (m.freechunks == 0) ≡ false = ground (arith, pool.blocks.null, live) in
      rw (add_chunk-free a mp nbytes m found live (base-live _ _ mp _ cs pool.chain)) (
        returns (record {
          ptr = m.freechunks;
          left = fs;
          pool =
              linked-IsPool (popped m) mp _ _ cs fs (popped-IsPool m mp cs fs pool) chunk ne
                pool.cs_fs.0 pool.fs_distinct.0;
          spared = record {
            live = Extends-refl m.blocks;
            headers = λ q h ne out. ground arith;
            bytes = refl;
          };
          used = linked-Used (popped m) mp _ _ cs fs ne pool.cs_fs.0 pool.mp_cs;
          progress = inl (omega arith, refl);
          fewer = λ q out. out.1;
        }))

  new_chunk :
      header_size + nbytes < 2 ^ 64
      → IsPool m mp cs []
      → Returns (Refuses a nbytes m) (λ _. Grown nbytes mp cs [] m) (add_chunk a mp nbytes m)
  new_chunk small pool =
      let none_free : (m.freechunks == 0) ≡ true = ground (arith, pool.idle) in
      let size : ℕ = header_size + nbytes in
      let fits : u64 size ≡ size = omega arith in
      let base = base-live _ _ mp _ cs pool.chain in
      elim (Option-cases (a.place m.blocks size)) [
        | inl failed ↦ rw (add_chunk-none a mp nbytes m none_free (rw fits failed)) (aborts failed)
        | inr (p, got) ↦
            let fresh = a.fresh got in
            let ne : p ≢ mp = ground arith in
            let out = IsChain-NotIn m.blocks m.header mp p _ cs fresh pool.chain in
            let chunk : Chunk ((p, size) ∷ m.blocks) p (p + size) = record {
              size = size;
              live = ground arith;
              ends = refl;
              big = omega arith;
            } in
            rw (add_chunk-new a mp nbytes m p none_free got small fresh base) (
              returns (record {
                ptr = p;
                left = [];
                pool =
                    linked-IsPool (claimed m p size) mp p (p + size) cs []
                      (claimed-IsPool m mp cs [] a p size got pool) chunk ne out tt;
                spared = record {
                  live = Extends-claim m.blocks p size fresh;
                  headers = λ q h other _. ground arith;
                  bytes = refl;
                };
                used = linked-Used (claimed m p size) mp p (p + size) cs [] ne out pool.mp_cs;
                progress = inr (rw (==_refl mp) (omega arith));
                fewer = λ q _. tt;
              }))
      ]

  -- The round succeeds unless `posix_memalign` refuses the block of a new chunk.
  pub add_chunk-Grown :
      (fs : List ℕ)
      → header_size + nbytes < 2 ^ 64
      → IsPool m mp cs fs
      → Returns (Refuses a nbytes m) (λ _. Grown nbytes mp cs fs m) (add_chunk a mp nbytes m)
  add_chunk-Grown [] small pool = new_chunk small pool
  add_chunk-Grown (f ∷ fs) small pool =
      let at = pool.idle.0 in
      subst
        (λ x.
          Returns (Refuses a nbytes m) (λ _. Grown nbytes mp cs (x ∷ fs) m)
            (add_chunk a mp nbytes m))
        at (take_free fs (subst (λ x. IsPool m mp cs (x ∷ fs)) (sym at) pool))
