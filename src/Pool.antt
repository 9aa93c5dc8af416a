-- ===== src/Pool.antt =====
-- The memory pools of main/mem/mem.c. A chunk is a block of `posix_memalign` with a
-- `struct mem_pool` at its start; a pool is named by the address of its first chunk.
pub mod Heap
pub mod Alloc
pub mod Bump
pub mod Copy
mod Examples
pub mod Free
pub mod Grow
pub mod Invariant
pub mod Lifetime
pub mod Link
pub mod Outcome
pub mod Release
pub mod Rounds
use gfhttpd.Base.{
  ℕ, zero, suc, ◌+◌, ◌-◌, ◌*◌, ◌/◌, ◌%◌, ◌^◌, Bool, true, false, Option, none, some, Run, ok, fault,
  abort, out_of_fuel, ltb, ◌==◌, if◌then◌else◌, Bytes, length, ◌++◌, [], ◌∷◌, take, replicate,
}
use Heap.{
  Header, header_size, Memory, Allocator, Cmd, pure, ◌>>=◌, ◌>>◌, load, store, claim, free, assert,
  get_global, set_free, write_bytes, copy_from,
}

-- THRESHOLD
abbrev pub threshold : ℕ
threshold = 10

-- A `size_t` result.
abbrev pub u64 : ℕ → ℕ
u64 n = n % 2 ^ 64

-- `hd->limit - hd->avail`, as it is compared with a `size_t`.
abbrev pub room : Header → ℕ
room hd = u64 (hd.limit + 2 ^ 64 - hd.avail)

module _ (a : Allocator) where
  unfoldable pub mp_new : ℕ → Cmd ℕ
  mp_new nbytes = do
    let size = u64 (header_size + nbytes)
    mp ← claim a size
    store mp (record { prev = 0; avail = mp + header_size; limit = mp + size })
    pure mp

  -- The chunk that `mp_alloc` adds, with its limit: the first free one, or a new one.
  pub next_chunk : ℕ → Cmd (ℕ × ℕ)
  next_chunk nbytes = do
    (freechunks, nfree) ← get_global
    if freechunks == 0
        then (do let size = u64 (header_size + nbytes); ptr ← claim a size; pure (ptr, ptr + size))
        else (do hd ← load freechunks; set_free hd.prev (nfree - 1); pure (freechunks, hd.limit))

  -- One round of the loop of `mp_alloc`.
  pub add_chunk : ℕ → ℕ → Cmd (Unit {0})
  unfolding next_chunk
  add_chunk mp nbytes = do
    (ptr, limit) ← next_chunk nbytes
    hd ← load mp
    store ptr hd
    store mp (record { prev = ptr; avail = ptr + header_size; limit = limit })

  pub alloc_loop : ℕ → ℕ → ℕ → Cmd ℕ
  alloc_loop zero mp nbytes = λ _. out_of_fuel
  alloc_loop (suc fuel) mp nbytes = do
    hd ← load mp
    if ltb (room hd) nbytes
        then (do add_chunk mp nbytes; alloc_loop fuel mp nbytes)
        else (do store mp (record hd { avail = hd.avail + nbytes }); pure hd.avail)

  unfoldable pub mp_alloc : ℕ → ℕ → ℕ → Cmd ℕ
  unfolding add_chunk alloc_loop
  mp_alloc fuel mp nbytes = do assert (mp == 0); assert (nbytes == 0); alloc_loop fuel mp nbytes

  unfoldable pub mp_calloc : ℕ → ℕ → ℕ → ℕ → Cmd ℕ
  mp_calloc fuel mp count nbytes = do
    assert (count == 0)
    ptr ← mp_alloc fuel mp (u64 (count * nbytes))
    write_bytes ptr (replicate (u64 (count * nbytes)) 0)
    pure ptr

  unfoldable pub mp_strndup : ℕ → ℕ → Bytes → ℕ → Cmd ℕ
  mp_strndup fuel mp s1 n = do
    ret ← mp_calloc fuel mp (u64 (n + 1)) 1
    bytes ← copy_from s1 n
    write_bytes ret bytes
    write_bytes (ret + n) (0 ∷ [])
    pure ret

pub release_chunk : ℕ → ℕ → Header → Cmd (Unit {0})
release_chunk ptr limit tmp = do
  (freechunks, nfree) ← get_global
  if ltb nfree threshold
      then (do
        store ptr (record tmp { prev = freechunks; limit = limit })
        set_free ptr (nfree + 1))
      else free ptr

-- The loop of `mp_free`.
pub free_loop : ℕ → ℕ → Cmd (Unit {0})
unfolding release_chunk
free_loop zero mp = λ _. out_of_fuel
free_loop (suc fuel) mp = do
  hd ← load mp
  if hd.prev == 0 then pure tt else (do
    tmp ← load hd.prev
    release_chunk hd.prev hd.limit tmp
    store mp tmp
    free_loop fuel mp)

unfoldable pub mp_free : ℕ → ℕ → Cmd (Unit {0})
unfolding free_loop
mp_free fuel mp = do
  assert (mp == 0)
  free_loop fuel mp
  hd ← load mp
  assert (hd.limit == 0)
  assert (hd.avail == 0)

-- `*ap` is `mp`, and NULL afterwards; `ap` itself is never NULL here.
unfoldable pub mp_delete : ℕ → ℕ → Bool → Cmd (Unit {0})
mp_delete fuel mp clean = do
  (freechunks, nfree) ← get_global
  set_free freechunks (if clean then threshold else nfree)
  assert (mp == 0)
  mp_free fuel mp
  free mp

unfoldable pub mp_has_left : ℕ → Cmd ℕ
mp_has_left mp = do hd ← load mp; pure (room hd)

unfoldable pub align_size : ℕ → ℕ
align_size s = u64 (s + 16 - 1) / 16 * 16
