-- ===== src/Pool/Link.antt =====
-- A chunk that is taken from the list of free chunks, or new, is linked into a pool.
use gfhttpd.Base.{
  ℕ, ◌≡◌, ◌≢◌, ◌↔◌, inl, inr, refl, sym, false, List, [], ◌∷◌, none, some, arith, ◌==◌, All,
  ==_refl,
}
use gfhttpd.Pool.Heap.{Header, Blocks, find, Memory, Allocator}
use gfhttpd.Pool.Invariant.{
  NotIn, Chunk, IsChain, AreApart, IsPool, UsedBy, Extends, AgreeOn, AgreeOn-update, AgreeOn-refl,
  IsChain-frame, IsFree-frame, Used-frame,
}
use gfhttpd.Pool.Rounds.{linked, popped, claimed}

pub Extends-refl : (bs : Blocks) → Extends bs bs
Extends-refl bs b s e = e

pub Extends-claim : (bs : Blocks) (p size : ℕ) → find p bs ≡ none → Extends bs ((p, size) ∷ bs)
Extends-claim bs p size fresh b s e = ground arith

module _ (m : Memory) (a : Allocator) (p size : ℕ) (got : a.place m.blocks size ≡ some p) where
  pub claimed-AreApart : AreApart m.blocks → AreApart ((p, size) ∷ m.blocks)
  claimed-AreApart blocks = record {
    apart =
        λ b c s t e f ne. ground (arith, blocks.apart b c s t, a.apart got c t, a.apart got b s);
    in_range = λ b s e. ground (arith, blocks.in_range b s, a.in_range got);
    null = ground (arith, blocks.null, a.nonnull got);
  }

module _ (m : Memory) (mp : ℕ) (cs fs : List ℕ) where
  pub popped-IsPool : IsPool m mp cs (m.freechunks ∷ fs) → IsPool (popped m) mp cs fs
  popped-IsPool pool = record {
    chain = pool.chain;
    idle = pool.idle.2;
    mp_cs = pool.mp_cs;
    mp_fs = pool.mp_fs.1;
    cs_distinct = pool.cs_distinct;
    fs_distinct = pool.fs_distinct.1;
    cs_fs = pool.cs_fs.1;
    blocks = pool.blocks;
    count = omega (arith, pool.count);
    most = omega (arith, pool.most);
  }

  module _ (a : Allocator) (p size : ℕ) (got : a.place m.blocks size ≡ some p) where
    pub claimed-IsPool : IsPool m mp cs fs → IsPool (claimed m p size) mp cs fs
    claimed-IsPool pool =
        let grow = Extends-claim m.blocks p size (a.fresh got) in
        record {
          chain =
              IsChain-frame m.blocks _ grow m.header _ mp (m.header mp) cs (AgreeOn-refl _ cs)
                pool.chain;
          idle =
              IsFree-frame m.blocks _ grow m.header _ m.freechunks fs (AgreeOn-refl _ fs) pool.idle;
          mp_cs = pool.mp_cs;
          mp_fs = pool.mp_fs;
          cs_distinct = pool.cs_distinct;
          fs_distinct = pool.fs_distinct;
          cs_fs = pool.cs_fs;
          blocks = claimed-AreApart m a p size got pool.blocks;
          count = pool.count;
          most = pool.most;
        }

pub NotIn-cons :
    (p : ℕ) (cs fs : List ℕ)
    → NotIn p fs
    → All (λ f. NotIn f cs) fs
    → All (λ f. NotIn f (p ∷ cs)) fs
NotIn-cons p cs [] out apart = tt
NotIn-cons p cs (f ∷ fs) (ne, out) (here, apart) =
    ((λ e. ne (sym e), here), NotIn-cons p cs fs out apart)

-- A chunk that neither the pool nor the list of free chunks holds can be linked in front.
module _ (m : Memory) (mp ptr limit : ℕ) (cs fs : List ℕ) where
  pub linked-agree :
      (xs : List ℕ)
      → NotIn mp xs
      → NotIn ptr xs
      → AgreeOn m.header (linked m mp ptr limit).header xs
  linked-agree xs out_mp out_ptr =
      AgreeOn-update m.header _ mp _ xs out_mp
        (AgreeOn-update m.header m.header ptr _ xs out_ptr (AgreeOn-refl m.header xs))

  pub linked-IsPool :
      IsPool m mp cs fs
      → Chunk m.blocks ptr limit
      → ptr ≢ mp
      → NotIn ptr cs
      → NotIn ptr fs
      → IsPool (linked m mp ptr limit) mp (ptr ∷ cs) fs
  linked-IsPool pool chunk ne out_cs out_fs = record {
    chain =
        rw (==_refl mp, other)
          (
            refl,
            record {
              chunk = chunk;
              low = omega arith;
              high = omega (arith, chunk.ends, chunk.big);
            },
            rw (==_refl ptr) (
                IsChain-frame m.blocks m.blocks (Extends-refl m.blocks) m.header _ mp (m.header mp)
                  cs (linked-agree cs pool.mp_cs out_cs) pool.chain),
          );
    idle =
        IsFree-frame m.blocks m.blocks (Extends-refl m.blocks) m.header _ m.freechunks fs
          (linked-agree fs pool.mp_fs out_fs) pool.idle;
    mp_cs = (ne, pool.mp_cs);
    mp_fs = pool.mp_fs;
    cs_distinct = (out_cs, pool.cs_distinct);
    fs_distinct = pool.fs_distinct;
    cs_fs = NotIn-cons ptr cs fs out_fs pool.cs_fs;
    blocks = pool.blocks;
    count = pool.count;
    most = pool.most;
  }
    where
      other : (ptr == mp) ≡ false
      other = ground arith

  pub linked-Used :
      ptr ≢ mp
      → NotIn ptr cs
      → NotIn mp cs
      → (a : ℕ) → UsedBy (linked m mp ptr limit) mp (ptr ∷ cs) a ↔ UsedBy m mp cs a
  linked-Used ne out_cs mp_cs a =
      let other : (ptr == mp) ≡ false = ground arith in
      let old =
        Used-frame m.header (linked m mp ptr limit).header mp (m.header mp) cs a
          (linked-agree cs mp_cs out_cs) in
      rw (==_refl mp, other, ==_refl ptr)
        (λ u. elim u [ inl t ↦ absurd (omega arith) | inr v ↦ old.0 v ], λ u. inr (old.1 u))

-- The chunks of a pool are live.
pub IsChain-NotIn :
    (bs : Blocks) (h : ℕ → Header) (mp p : ℕ) (hd : Header) (cs : List ℕ)
    → find p bs ≡ none
    → IsChain bs h mp hd cs
    → NotIn p cs
IsChain-NotIn bs h mp p hd [] fresh chain = tt
IsChain-NotIn bs h mp p hd (c ∷ cs) fresh (prev, fits, chain) =
    (λ e. ground (arith, fits.chunk.live), IsChain-NotIn bs h mp p (h c) cs fresh chain)
