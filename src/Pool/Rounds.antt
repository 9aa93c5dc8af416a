-- ===== src/Pool/Rounds.antt =====
-- What the reads and writes of `mp_alloc` do to a memory where they are in bounds.
use gfhttpd.Base.{
  ℕ, ◌+◌, ◌-◌, ◌^◌, ◌<◌, ◌≡◌, refl, true, false, ◌∷◌, none, some, arith, ◌==◌, ok, abort,
}
use gfhttpd.Pool.Heap.{
  free, remove, Header, header_size, find, Memory, Allocator, load, store, claim, holds_header,
  update,
}
use gfhttpd.Pool.{u64, add_chunk}

pub store-ok :
    (p : ℕ) (hd : Header) (m : Memory)
    → holds_header p m.blocks ≡ true
    → store p hd m ≡ ok (tt, record m { header = update m.header p hd })
unfolding store
store-ok p hd m e = rw e

pub load-ok : (p : ℕ) (m : Memory) → holds_header p m.blocks ≡ true → load p m ≡ ok (m.header p, m)
unfolding load
load-ok p m e = rw e

pub free-ok :
    (p size : ℕ) (m : Memory)
    → find p m.blocks ≡ some size
    → free p m ≡ ok (tt, record m { blocks = remove p m.blocks })
unfolding free
free-ok p size m e = rw (e, free)

module _ (a : Allocator) (size : ℕ) (m : Memory) where
  pub claim-abort : a.place m.blocks size ≡ none → claim a size m ≡ abort
  unfolding claim
  claim-abort e = rw (e, claim)

  pub claim-ok :
      (p : ℕ)
      → a.place m.blocks size ≡ some p
      → claim a size m ≡ ok (p, record m { blocks = (p, size) ∷ m.blocks })
  unfolding claim
  claim-ok p e = rw (e, claim)

-- The memory after the two writes of the round.
abbrev pub linked : Memory → ℕ → ℕ → ℕ → Memory
linked m mp ptr limit = record m {
  header =
      update (update m.header ptr (m.header mp)) mp
        (record { prev = ptr; avail = ptr + header_size; limit = limit });
}

-- The memory without its first free chunk.
abbrev pub popped : Memory → Memory
popped m = record m { freechunks = (m.header m.freechunks).prev; nfree = m.nfree - 1 }

-- The memory with one more block.
abbrev pub claimed : Memory → ℕ → ℕ → Memory
claimed m p size = record m { blocks = (p, size) ∷ m.blocks }

module _ (a : Allocator) (mp nbytes : ℕ) (m : Memory) where
  pub add_chunk-free :
      (m.freechunks == 0) ≡ false
      → holds_header m.freechunks m.blocks ≡ true
      → holds_header mp m.blocks ≡ true
      → add_chunk a mp nbytes m
        ≡ ok (tt, linked (popped m) mp m.freechunks (m.header m.freechunks).limit)
  unfolding add_chunk
  add_chunk-free some_free live base =
      rw
        (
          some_free,
          load-ok m.freechunks m live,
          load-ok mp (popped m) base,
          store-ok m.freechunks (m.header mp) (popped m) live,
          store-ok mp
              (record {
                prev = m.freechunks;
                avail = m.freechunks + header_size;
                limit = (m.header m.freechunks).limit;
              })
              (record m {
                header = update m.header m.freechunks (m.header mp);
                freechunks = (m.header m.freechunks).prev;
                nfree = m.nfree - 1;
              })
              base,
        )
        refl

  pub add_chunk-none :
      (m.freechunks == 0) ≡ true
      → a.place m.blocks (u64 (header_size + nbytes)) ≡ none
      → add_chunk a mp nbytes m ≡ abort
  unfolding add_chunk
  add_chunk-none no_free failed = rw (no_free, claim-abort a _ m failed)

  pub add_chunk-new :
      (p : ℕ)
      → (m.freechunks == 0) ≡ true
      → a.place m.blocks (header_size + nbytes) ≡ some p
      → header_size + nbytes < 2 ^ 64
      → find p m.blocks ≡ none
      → holds_header mp m.blocks ≡ true
      → add_chunk a mp nbytes m
        ≡ ok (tt, linked (claimed m p (header_size + nbytes)) mp p (p + (header_size + nbytes)))
  unfolding add_chunk
  add_chunk-new p no_free got small fresh base =
      let size = header_size + nbytes in
      let fits : u64 size ≡ size = omega arith in
      let room_for : holds_header p ((p, size) ∷ m.blocks) ≡ true = ground arith in
      let base' : holds_header mp ((p, size) ∷ m.blocks) ≡ true = ground arith in
      let m' = claimed m p size in
      rw
        (
          no_free,
          fits,
          claim-ok a size m p got,
          load-ok mp m' base',
          store-ok p (m.header mp) m' room_for,
          store-ok mp (record { prev = p; avail = p + header_size; limit = p + size })
              (record m' { header = update m.header p (m.header mp) }) base',
        )
        refl
