-- ===== src/Pool/Invariant.antt =====
-- When a memory holds a pool and the list of free chunks, and which addresses the pool has
-- handed out.
use gfhttpd.Base.{
  ℕ, ◌+◌, ◌^◌, ◌≤◌, ◌<◌, ◌≡◌, ◌≢◌, ◌⊎◌, inl, inr, refl, sym, true, List, [], ◌∷◌, none, some, arith,
  length, All, ◌↔◌,
}
use gfhttpd.Pool.Heap.{Header, header_size, Blocks, find, Memory, holds_header, update}
use gfhttpd.Pool.{threshold}

abbrev pub NotIn : ℕ → List ℕ → Type 0
NotIn a xs = All (λ x. x ≢ a) xs

abbrev pub Distinct : List ℕ → Type 0
Distinct [] = Unit
Distinct (x ∷ xs) = NotIn x xs × Distinct xs

-- The chunk at `b` is a live block that ends at `limit`.
pub record Chunk (bs : Blocks) (b limit : ℕ) : Type 0 where
  pub size : ℕ
  pub live : find b bs ≡ some size
  pub ends : limit ≡ b + size
  pub big : header_size ≤ size

-- `hd` describes the chunk at `b`: what lies below `avail` is taken.
pub record Fits (bs : Blocks) (b : ℕ) (hd : Header) : Type 0 where
  pub chunk : Chunk bs b hd.limit
  pub low : b + header_size ≤ hd.avail
  pub high : hd.avail ≤ hd.limit

-- `hd` and its `prev` links describe the chunks `cs`, and then the first one, at `mp`.
abbrev pub IsChain : Blocks → (ℕ → Header) → ℕ → Header → List ℕ → Type 0
IsChain bs h mp hd [] = (hd.prev ≡ 0) × Fits bs mp hd
IsChain bs h mp hd (c ∷ cs) = (hd.prev ≡ c) × Fits bs c hd × IsChain bs h mp (h c) cs

-- From `p` the `prev` links lead through the free chunks `fs`.
abbrev pub IsFree : Blocks → (ℕ → Header) → ℕ → List ℕ → Type 0
IsFree bs h p [] = p ≡ 0
IsFree bs h p (f ∷ fs) = (p ≡ f) × Chunk bs f (h f).limit × IsFree bs h (h f).prev fs

-- Live blocks do not overlap, do not wrap around, and none is at NULL.
pub record AreApart (bs : Blocks) : Type 0 where
  pub apart :
      (b c s t : ℕ) → find b bs ≡ some s → find c bs ≡ some t → b ≢ c → (b + s ≤ c) ⊎ (c + t ≤ b)
  pub in_range : (b s : ℕ) → find b bs ≡ some s → b + s < 2 ^ 64
  pub null : find 0 bs ≡ none

-- The memory holds a pool at `mp` with the further chunks `cs`, and the free chunks `fs`.
pub record IsPool (m : Memory) (mp : ℕ) (cs fs : List ℕ) : Type 0 where
  pub chain : IsChain m.blocks m.header mp (m.header mp) cs
  pub idle : IsFree m.blocks m.header m.freechunks fs
  pub mp_cs : NotIn mp cs
  pub mp_fs : NotIn mp fs
  pub cs_distinct : Distinct cs
  pub fs_distinct : Distinct fs
  pub cs_fs : All (λ f. NotIn f cs) fs
  pub blocks : AreApart m.blocks
  pub count : length fs ≤ m.nfree
  pub most : m.nfree ≤ threshold

-- The memory holds the free chunks `fs`.
pub record IsIdle (m : Memory) (fs : List ℕ) : Type 0 where
  pub idle : IsFree m.blocks m.header m.freechunks fs
  pub fs_distinct : Distinct fs
  pub blocks : AreApart m.blocks
  pub count : length fs ≤ m.nfree
  pub most : m.nfree ≤ threshold

-- The byte at `a` is handed out by the chunk at `b`.
abbrev pub Taken : ℕ → Header → ℕ → Type 0
Taken b hd a = (b + header_size ≤ a) × (a < hd.avail)

-- The byte at `a` is handed out by the pool.
abbrev pub Used : (ℕ → Header) → ℕ → Header → List ℕ → ℕ → Type 0
Used h mp hd [] a = Taken mp hd a
Used h mp hd (c ∷ cs) a = Taken c hd a ⊎ Used h mp (h c) cs a

abbrev pub UsedBy : Memory → ℕ → List ℕ → ℕ → Type 0
UsedBy m mp cs a = Used m.header mp (m.header mp) cs a

-- Every block of `bs` is one of `bs'`.
abbrev pub Extends : Blocks → Blocks → Type 0
Extends bs bs' = (b s : ℕ) → find b bs ≡ some s → find b bs' ≡ some s

-- Two headers maps agree at the chunks `cs`.
abbrev pub AgreeOn : (h h' : ℕ → Header) → List ℕ → Type 0
AgreeOn h h' cs = All (λ c. h' c ≡ h c) cs

module _ (h : ℕ → Header) where
  pub AgreeOn-update :
      (h' : ℕ → Header) (p : ℕ) (v : Header) (cs : List ℕ)
      → NotIn p cs
      → AgreeOn h h' cs
      → AgreeOn h (update h' p v) cs
  AgreeOn-update h' p v [] out same = tt
  AgreeOn-update h' p v (c ∷ cs) (ne, out) (e, same) =
      (ground arith, AgreeOn-update h' p v cs out same)

  pub AgreeOn-refl : (cs : List ℕ) → AgreeOn h h cs
  AgreeOn-refl [] = tt
  AgreeOn-refl (c ∷ cs) = (refl, AgreeOn-refl cs)

module _ {bs bs' : Blocks} (grow : Extends bs bs') where
  pub Chunk-grow : {b limit : ℕ} → Chunk bs b limit → Chunk bs' b limit
  Chunk-grow c = record { size = c.size; live = grow _ _ c.live; ends = c.ends; big = c.big }

  pub Fits-grow : {b : ℕ} {hd : Header} → Fits bs b hd → Fits bs' b hd
  Fits-grow f = record { chunk = Chunk-grow f.chunk; low = f.low; high = f.high }

module _ (bs bs' : Blocks) (grow : Extends bs bs') (h h' : ℕ → Header) where
  pub IsChain-frame :
      (mp : ℕ) (hd : Header) (cs : List ℕ)
      → AgreeOn h h' cs
      → IsChain bs h mp hd cs
      → IsChain bs' h' mp hd cs
  IsChain-frame mp hd [] same (e, fits) = (e, Fits-grow grow fits)
  IsChain-frame mp hd (c ∷ cs) (e, same) (prev, fits, chain) =
      (prev, Fits-grow grow fits, rw e (IsChain-frame mp (h c) cs same chain))

  pub IsFree-frame : (p : ℕ) (fs : List ℕ) → AgreeOn h h' fs → IsFree bs h p fs → IsFree bs' h' p fs
  IsFree-frame p [] same e = e
  IsFree-frame p (f ∷ fs) (e, same) (at, chunk, idle) =
      (at, rw e (Chunk-grow grow chunk), rw e (IsFree-frame (h f).prev fs same idle))

module _ (h h' : ℕ → Header) where
  pub Used-frame :
      (mp : ℕ) (hd : Header) (cs : List ℕ) (a : ℕ)
      → AgreeOn h h' cs
      → Used h' mp hd cs a ↔ Used h mp hd cs a
  Used-frame mp hd [] a same = (λ u. u, λ u. u)
  Used-frame mp hd (c ∷ cs) a (e, same) =
      let ih = Used-frame mp (h c) cs a same in
      rw e (
        λ u. elim u [ inl t ↦ inl t | inr v ↦ inr (ih.0 v) ],
        λ u. elim u [ inl t ↦ inl t | inr v ↦ inr (ih.1 v) ],
      )

-- The first chunk of a pool can hold a header, and so can every other chunk.
pub Chunk-live : {bs : Blocks} {b limit : ℕ} → Chunk bs b limit → holds_header b bs ≡ true
Chunk-live {bs} {b} c = rw (c.live, holds_header) (ground (arith, c.big))

pub base-live :
    (bs : Blocks) (h : ℕ → Header) (mp : ℕ) (hd : Header) (cs : List ℕ)
    → IsChain bs h mp hd cs
    → holds_header mp bs ≡ true
base-live bs h mp hd [] (e, fits) = Chunk-live fits.chunk
base-live bs h mp hd (c ∷ cs) (prev, fits, chain) = base-live bs h mp (h c) cs chain

-- A byte that lies in the block of a chunk is not handed out by the other chunks.
module _ {bs : Blocks} (blocks : AreApart bs) (h : ℕ → Header) where
  pub not-Taken :
      (b c s a : ℕ) (hd : Header)
      → find b bs ≡ some s
      → b ≤ a
      → a < b + s
      → b ≢ c
      → Fits bs c hd
      → ¬ Taken c hd a
  not-Taken b c s a hd live lo hi ne fits (from, to) =
      let d = blocks.apart b c s fits.chunk.size live fits.chunk.live ne in omega arith

  pub not-Used :
      (mp : ℕ) (hd : Header) (cs : List ℕ) (b s a : ℕ)
      → find b bs ≡ some s
      → b ≤ a
      → a < b + s
      → b ≢ mp
      → NotIn b cs
      → IsChain bs h mp hd cs
      → ¬ Used h mp hd cs a
  not-Used mp hd [] b s a live lo hi ne out (e, fits) u = not-Taken b mp s a hd live lo hi ne fits u
  not-Used mp hd (c ∷ cs) b s a live lo hi ne (apart, out) (prev, fits, chain) (inl u) =
      not-Taken b c s a hd live lo hi (λ e. apart (sym e)) fits u
  not-Used mp hd (c ∷ cs) b s a live lo hi ne (apart, out) (prev, fits, chain) (inr u) =
      not-Used mp (h c) cs b s a live lo hi ne out chain u
