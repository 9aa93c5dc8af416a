-- ===== src/Pool/Bump.antt =====
-- The round of `mp_alloc` that finds room.
use gfhttpd.Base.{
  ℕ, ◌+◌, ◌-◌, ◌≤◌, ◌<◌, ◌≡◌, ◌⊎◌, ◌↔◌, inl, inr, refl, false, List, [], ◌∷◌, some, arith, ◌==◌,
  ==_refl, dec_lt,
}
use gfhttpd.Pool.Heap.{Header, header_size, Blocks, find, Memory, update}
use gfhttpd.Pool.{room}
use gfhttpd.Pool.Invariant.{
  NotIn, Distinct, Fits, IsChain, AreApart, IsPool, UsedBy, AgreeOn, AgreeOn-update, AgreeOn-refl,
  IsChain-frame, IsFree-frame, Used-frame, not-Used,
}
use gfhttpd.Pool.Grow.{Spares}
use gfhttpd.Pool.Link.{Extends-refl}

-- `p` is the start of `n` bytes that are newly handed out, in one block and behind its header;
-- nothing else changes for the pool, and the other pools are spared.
pub record Allocated (n mp : ℕ) (cs fs : List ℕ) (m : Memory) (p : ℕ) (m' : Memory) : Type 0 where
  pub chunks : List ℕ
  pub left : List ℕ
  pub pool : IsPool m' mp chunks left
  pub spared : Spares mp fs m m'
  pub block : ℕ
  pub size : ℕ
  pub live : find block m'.blocks ≡ some size
  pub low : block + header_size ≤ p
  pub high : p + n ≤ block + size
  pub fresh : (a : ℕ) → p ≤ a → a < p + n → ¬ UsedBy m mp cs a
  pub used : (a : ℕ) → UsedBy m' mp chunks a ↔ (UsedBy m mp cs a ⊎ ((p ≤ a) × (a < p + n)))

-- The chunk that the pool hands out from.
abbrev pub top : ℕ → List ℕ → ℕ
top mp [] = mp
top mp (c ∷ cs) = c

abbrev pub bump : Memory → ℕ → ℕ → Memory
bump m mp n = record m {
  header = update m.header mp (record (m.header mp) { avail = (m.header mp).avail + n });
}

pub top-Fits :
    (bs : Blocks) (h : ℕ → Header) (mp : ℕ) (hd : Header) (cs : List ℕ)
    → IsChain bs h mp hd cs
    → Fits bs (top mp cs) hd
top-Fits bs h mp hd [] chain = chain.1
top-Fits bs h mp hd (c ∷ cs) chain = chain.1

pub room-Fits :
    (bs : Blocks) (b : ℕ) (hd : Header) → AreApart bs → Fits bs b hd → room hd ≡ hd.limit - hd.avail
room-Fits bs b hd blocks fits =
    let range = blocks.in_range b fits.chunk.size fits.chunk.live in
    omega (arith, fits.chunk.ends, fits.high)

-- The bytes handed out by a chunk, before and after `avail` grows by `n`.
taken_iff :
    (low avail n a : ℕ)
    → low ≤ avail
    → ((low ≤ a) × (a < avail + n)) ↔ (((low ≤ a) × (a < avail)) ⊎ ((avail ≤ a) × (a < avail + n)))
taken_iff low avail n a h = (
  λ u. elim (dec_lt a avail) [ yes lt ↦ inl (u.0, lt) | no ge ↦ inr (omega arith, u.1) ],
  λ u. elim u [ inl t ↦ (t.0, omega arith) | inr t ↦ (omega arith, t.1) ],
)

module _ (m : Memory) (mp n : ℕ) where
  bump-agree : (cs : List ℕ) → NotIn mp cs → AgreeOn m.header (bump m mp n).header cs
  bump-agree cs out = AgreeOn-update m.header m.header mp _ cs out (AgreeOn-refl m.header cs)

  bump-IsChain :
      (cs : List ℕ)
      → NotIn mp cs
      → (m.header mp).avail + n ≤ (m.header mp).limit
      → IsChain m.blocks m.header mp (m.header mp) cs
      → IsChain m.blocks
          (bump m mp n).header
          mp
          (record (m.header mp) { avail = (m.header mp).avail + n })
          cs
  bump-IsChain [] out fit (prev, fits) =
      (prev, record { chunk = fits.chunk; low = omega (arith, fits.low); high = fit })
  bump-IsChain (c ∷ cs) (ne, out) fit (prev, fits, chain) = (
    prev,
    record { chunk = fits.chunk; low = omega (arith, fits.low); high = fit },
    (let other : (c == mp) ≡ false = ground arith in
        rw other (
          IsChain-frame m.blocks m.blocks (Extends-refl m.blocks) m.header _ mp (m.header c) cs
            (bump-agree cs out) chain)),
  )

  bump-Used :
      (cs : List ℕ)
      → NotIn mp cs
      → IsChain m.blocks m.header mp (m.header mp) cs
      → (a : ℕ)
      → UsedBy (bump m mp n) mp cs a
        ↔ (UsedBy m mp cs a ⊎ (((m.header mp).avail ≤ a) × (a < (m.header mp).avail + n)))
  bump-Used [] out (prev, fits) a = rw (==_refl mp) (taken_iff _ _ n a fits.low)
  bump-Used (c ∷ cs) (ne, out) (prev, fits, chain) a =
      let other : (c == mp) ≡ false = ground arith in
      let here = taken_iff (c + header_size) (m.header mp).avail n a fits.low in
      let there =
        Used-frame m.header (bump m mp n).header mp (m.header c) cs a (bump-agree cs out) in
      rw (==_refl mp, other)
        (
          λ u. elim u [
            | inl t ↦ elim (here.0 t) [ inl old ↦ inl (inl old) | inr new ↦ inr new ]
            | inr v ↦ inl (inr (there.0 v))
          ],
          λ u. elim u [
            | inl v ↦ elim v [ inl t ↦ inl (here.1 (inl t)) | inr w ↦ inr (there.1 w) ]
            | inr new ↦ inl (here.1 (inr new))
          ],
        )

  bump-fresh :
      (cs : List ℕ)
      → AreApart m.blocks
      → NotIn mp cs
      → Distinct cs
      → (m.header mp).avail + n ≤ (m.header mp).limit
      → IsChain m.blocks m.header mp (m.header mp) cs
      → (a : ℕ) → (m.header mp).avail ≤ a
      → a < (m.header mp).avail + n
      → ¬ UsedBy m mp cs a
  bump-fresh [] blocks out apart fit chain a lo hi u = omega arith
  bump-fresh (c ∷ cs) blocks (ne, out) (other, apart) fit (prev, fits, chain) a lo hi (inl u) =
      omega arith
  bump-fresh (c ∷ cs) blocks (ne, out) (other, apart) fit (prev, fits, chain) a lo hi (inr u) =
      not-Used blocks m.header mp (m.header c) cs c fits.chunk.size a fits.chunk.live
        (omega (arith, fits.low)) (omega (arith, fits.chunk.ends)) ne other chain u

-- The round of `mp_alloc` that finds room.
module _ (m : Memory) (mp n : ℕ) (cs fs : List ℕ) (pool : IsPool m mp cs fs)
    (fit : (m.header mp).avail + n ≤ (m.header mp).limit) where
  bump-IsPool : IsPool (bump m mp n) mp cs fs
  bump-IsPool = record {
    chain = rw (==_refl mp) (bump-IsChain m mp n cs pool.mp_cs fit pool.chain);
    idle =
        IsFree-frame m.blocks m.blocks (Extends-refl m.blocks) m.header _ m.freechunks fs
          (bump-agree m mp n fs pool.mp_fs) pool.idle;
    mp_cs = pool.mp_cs;
    mp_fs = pool.mp_fs;
    cs_distinct = pool.cs_distinct;
    fs_distinct = pool.fs_distinct;
    cs_fs = pool.cs_fs;
    blocks = pool.blocks;
    count = pool.count;
    most = pool.most;
  }

  pub bump-Allocated : Allocated n mp cs fs m (m.header mp).avail (bump m mp n)
  bump-Allocated =
      let fits = top-Fits m.blocks m.header mp (m.header mp) cs pool.chain in
      record {
        chunks = cs;
        left = fs;
        pool = bump-IsPool;
        spared = record {
          live = Extends-refl m.blocks;
          headers = λ q h ne out. ground arith;
          bytes = refl;
        };
        block = top mp cs;
        size = fits.chunk.size;
        live = fits.chunk.live;
        low = fits.low;
        high = omega (arith, fits.chunk.ends);
        fresh = bump-fresh m mp n cs pool.blocks pool.mp_cs pool.cs_distinct fit pool.chain;
        used = bump-Used m mp n cs pool.mp_cs pool.chain;
      }
