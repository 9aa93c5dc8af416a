-- ===== src/Pool/Free.antt =====
-- What `mp_free` does to the chunks of a pool.
use gfhttpd.Base.{
  ℕ, ◌+◌, ◌<◌, ◌≡◌, ◌≢◌, ◌⊎◌, refl, sym, ◌∙◌, false, List, [], ◌∷◌, none, arith, ◌==◌,
  if◌then◌else◌, All, ==_refl,
}
use gfhttpd.Pool.Heap.{Header, Blocks, find, remove, Memory, update}
use gfhttpd.Pool.{threshold}
use gfhttpd.Pool.Invariant.{
  NotIn, Chunk, Fits, IsChain, IsFree, AreApart, IsPool, AgreeOn, AgreeOn-update, AgreeOn-refl,
  IsChain-frame, IsFree-frame,
}
use gfhttpd.Pool.Link.{Extends-refl}

abbrev pub Holds : ℕ → List ℕ → Type 0
Holds q [] = ⊥
Holds q (f ∷ fs) = (f ≡ q) ⊎ Holds q fs

-- The header that the first chunk had when the pool last had no other.
abbrev pub first_header : (ℕ → Header) → Header → List ℕ → Header
first_header h hd [] = hd
first_header h hd (c ∷ cs) = first_header h (h c) cs

-- The pool is back to its first chunk, and each further one is either free or given back.
pub record Freed (mp : ℕ) (cs fs : List ℕ) (m m' : Memory) : Type 0 where
  pub left : List ℕ
  pub pool : IsPool m' mp [] left
  pub first : m'.header mp ≡ first_header m.header (m.header mp) cs
  pub kept : (q : ℕ) → Holds q fs → Holds q left
  pub returned : All (λ c. Holds c left ⊎ (find c m'.blocks ≡ none)) cs
  pub gone : (q : ℕ) → find q m.blocks ≡ none → find q m'.blocks ≡ none
  pub spared : (q : ℕ) → NotIn q cs → find q m'.blocks ≡ find q m.blocks
  pub headers : (q : ℕ) → q ≢ mp → NotIn q cs → m'.header q ≡ m.header q
  pub bytes : m'.byte ≡ m.byte
  pub full : m.nfree ≡ threshold → (left ≡ fs) × (m'.nfree ≡ threshold)

pub find-remove :
    (q c : ℕ) (bs : Blocks) → find q (remove c bs) ≡ (if q == c then none else find q bs)
find-remove q c [] = ground arith
find-remove q c ((b, size) ∷ bs) = ground (arith, find-remove q c bs)

pub find-remove_ne : (q c : ℕ) (bs : Blocks) → q ≢ c → find q (remove c bs) ≡ find q bs
find-remove_ne q c bs ne = ground (arith, find-remove q c bs)

-- What is left of a pool and of the free chunks when another block is given back.
module _ (c : ℕ) (bs : Blocks) (h : ℕ → Header) where
  Chunk-remove : (b limit : ℕ) → b ≢ c → Chunk bs b limit → Chunk (remove c bs) b limit
  Chunk-remove b limit ne chunk = record {
    size = chunk.size;
    live = find-remove_ne b c bs ne ∙ chunk.live;
    ends = chunk.ends;
    big = chunk.big;
  }

  Fits-remove : (b : ℕ) (hd : Header) → b ≢ c → Fits bs b hd → Fits (remove c bs) b hd
  Fits-remove b hd ne fits = record {
    chunk = Chunk-remove b hd.limit ne fits.chunk;
    low = fits.low;
    high = fits.high;
  }

  IsChain-remove :
      (mp : ℕ) (hd : Header) (cs : List ℕ)
      → mp ≢ c
      → NotIn c cs
      → IsChain bs h mp hd cs
      → IsChain (remove c bs) h mp hd cs
  IsChain-remove mp hd [] ne out (prev, fits) = (prev, Fits-remove mp hd ne fits)
  IsChain-remove mp hd (d ∷ cs) ne (other, out) (prev, fits, chain) =
      (prev, Fits-remove d hd other fits, IsChain-remove mp (h d) cs ne out chain)

  pub IsFree-remove :
      (p : ℕ) (fs : List ℕ) → NotIn c fs → IsFree bs h p fs → IsFree (remove c bs) h p fs
  IsFree-remove p [] out e = e
  IsFree-remove p (f ∷ fs) (other, out) (at, chunk, idle) =
      (at, Chunk-remove f (h f).limit other chunk, IsFree-remove (h f).prev fs out idle)

  pub AreApart-remove : AreApart bs → AreApart (remove c bs)
  AreApart-remove blocks = record {
    apart = λ b d s t e f ne.
        ground (arith, find-remove b c bs, find-remove d c bs, blocks.apart b d s t);
    in_range = λ b s e. ground (arith, find-remove b c bs, blocks.in_range b s);
    null = ground (arith, find-remove 0 c bs, blocks.null);
  }

pub NotIn-sym : (c : ℕ) (cs fs : List ℕ) → All (λ f. NotIn f (c ∷ cs)) fs → NotIn c fs
NotIn-sym c cs [] h = tt
NotIn-sym c cs (f ∷ fs) (here, h) = (λ e. here.0 (sym e), NotIn-sym c cs fs h)

pub NotIn-tail :
    (c : ℕ) (cs fs : List ℕ) → All (λ f. NotIn f (c ∷ cs)) fs → All (λ f. NotIn f cs) fs
NotIn-tail c cs [] h = tt
NotIn-tail c cs (f ∷ fs) (here, h) = (here.1, NotIn-tail c cs fs h)

-- The memory after a round that keeps the chunk `c`, and after one that gives it back.
abbrev pub cached : Memory → ℕ → ℕ → Memory
cached m mp c = record m {
  header =
      update
        (update m.header c
          (record (m.header c) { prev = m.freechunks; limit = (m.header mp).limit }))
        mp (m.header c);
  freechunks = c;
  nfree = m.nfree + 1;
}

abbrev pub returned_to : Memory → ℕ → ℕ → Memory
returned_to m mp c = record m {
  blocks = remove c m.blocks;
  header = update m.header mp (m.header c);
}

module _ (m : Memory) (mp c : ℕ) (cs fs : List ℕ) (pool : IsPool m mp (c ∷ cs) fs) where
  agree : (xs : List ℕ) → NotIn mp xs → NotIn c xs → AgreeOn m.header (cached m mp c).header xs
  agree xs out_mp out_c =
      AgreeOn-update m.header _ mp _ xs out_mp
        (AgreeOn-update m.header m.header c _ xs out_c (AgreeOn-refl m.header xs))

  pub cached-IsPool : m.nfree < threshold → IsPool (cached m mp c) mp cs (c ∷ fs)
  cached-IsPool below =
      let ne : c ≢ mp = pool.mp_cs.0 in
      let other : (c == mp) ≡ false = ground arith in
      let out = NotIn-sym c cs fs pool.cs_fs in
      record {
        chain = rw (==_refl mp) (
            IsChain-frame m.blocks m.blocks (Extends-refl m.blocks) m.header _ mp (m.header c) cs
              (agree cs pool.mp_cs.1 pool.cs_distinct.0) pool.chain.2);
        idle = (
          refl,
          rw (other, ==_refl c) (pool.chain.1.chunk),
          rw (other, ==_refl c)
              (IsFree-frame m.blocks m.blocks (Extends-refl m.blocks) m.header _ m.freechunks fs
                (agree fs pool.mp_fs out) pool.idle),
        );
        mp_cs = pool.mp_cs.1;
        mp_fs = (ne, pool.mp_fs);
        cs_distinct = pool.cs_distinct.1;
        fs_distinct = (out, pool.fs_distinct);
        cs_fs = (pool.cs_distinct.0, NotIn-tail c cs fs pool.cs_fs);
        blocks = pool.blocks;
        count = omega (arith, pool.count);
        most = omega (arith, pool.most);
      }

  pub returned_to-IsPool : IsPool (returned_to m mp c) mp cs fs
  returned_to-IsPool =
      let ne : mp ≢ c = λ e. pool.mp_cs.0 (sym e) in
      let out = NotIn-sym c cs fs pool.cs_fs in
      let bs = remove c m.blocks in
      record {
        chain = rw (==_refl mp) (
            IsChain-frame bs bs (Extends-refl bs) m.header _ mp (m.header c) cs
              (AgreeOn-update m.header m.header mp _ cs pool.mp_cs.1 (AgreeOn-refl m.header cs))
              (IsChain-remove c m.blocks m.header mp (m.header c) cs ne pool.cs_distinct.0
                pool.chain.2));
        idle =
            IsFree-frame bs bs (Extends-refl bs) m.header _ m.freechunks fs
              (AgreeOn-update m.header m.header mp _ fs pool.mp_fs (AgreeOn-refl m.header fs))
              (IsFree-remove c m.blocks m.header m.freechunks fs out pool.idle);
        mp_cs = pool.mp_cs.1;
        mp_fs = pool.mp_fs;
        cs_distinct = pool.cs_distinct.1;
        fs_distinct = pool.fs_distinct;
        cs_fs = NotIn-tail c cs fs pool.cs_fs;
        blocks = AreApart-remove c m.blocks m.header pool.blocks;
        count = pool.count;
        most = pool.most;
      }
