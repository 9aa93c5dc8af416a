-- ===== src/Pool/Examples.antt =====
-- Concrete pools of main/mem/mem.c, and the operations on them.
use gfhttpd.Base.{
  ℕ, ◌+◌, ◌^◌, ◌<◌, ◌≡◌, inl, inr, refl, true, [], ◌∷◌, Option, none, ltb, ◌++◌, some, arith, ◌==◌,
  if◌then◌else◌, Option-cases, take, bytes,
}
use gfhttpd.Pool.Heap.{Header, Blocks, find, Memory, Allocator}
use gfhttpd.Pool.{mp_strndup, mp_new, mp_free, mp_delete}
use gfhttpd.Pool.Outcome.{Returns}
use gfhttpd.Pool.Invariant.{IsPool, IsIdle}
use gfhttpd.Pool.Grow.{Refuses}
use gfhttpd.Pool.Alloc.{OutOfMemory}
use gfhttpd.Pool.Free.{Freed}
use gfhttpd.Pool.Release.{mp_free-Freed}
use gfhttpd.Pool.Lifetime.{Created, Deleted, mp_new-Created, mp_delete-Deleted}
use gfhttpd.Pool.Copy.{Filled, mp_strndup-Filled}

abbrev larger : ℕ → ℕ → ℕ
larger a b = if ltb a b then b else a

-- An address above all blocks.
abbrev top : Blocks → ℕ
top [] = 16
top ((b, s) ∷ bs) = larger (top bs) (b + s + 1)

top-positive : (bs : Blocks) → 0 < top bs
top-positive [] = omega arith
top-positive ((b, s) ∷ bs) = ground (arith, top-positive bs)

below_top : (bs : Blocks) (b s : ℕ) → find b bs ≡ some s → b + s < top bs
below_top [] b s h = absurd (ground arith)
below_top ((c, t) ∷ bs) b s h = ground (arith, below_top bs b s)

abbrev place_above : Blocks → ℕ → Option ℕ
place_above bs size = if ltb (top bs + size) (2 ^ 64) then some (top bs) else none

placed :
    (bs : Blocks) (size p : ℕ)
    → place_above bs size ≡ some p
    → (p ≡ top bs) × (top bs + size < 2 ^ 64)
placed bs size p h = ground arith

not_found : (bs : Blocks) → find (top bs) bs ≡ none
not_found bs = elim (Option-cases (find (top bs) bs)) [
  | inl missing ↦ missing
  | inr (s, found) ↦ absurd (omega (arith, below_top bs (top bs) s found))
]

-- An allocator that puts each block above all others.
abbrev above : Allocator
above = record {
  place = place_above;
  nonnull = λ {bs} {size} {p} h e. omega (arith, (placed bs size p h).0, top-positive bs);
  fresh = λ {bs} {size} {p} h. rw (placed bs size p h).0 (not_found bs);
  in_range = λ {bs} {size} {p} h. omega (arith, (placed bs size p h).0, (placed bs size p h).1);
  apart = λ {bs} {size} {p} h b s found.
      inl (omega (arith, (placed bs size p h).0, below_top bs b s found));
}

abbrev no_headers : ℕ → Header
no_headers p = record { prev = 0; avail = 0; limit = 0 }

abbrev nothing : Memory
nothing = record { blocks = []; header = no_headers; byte = λ _. 0; freechunks = 0; nfree = 0 }

nothing-IsIdle : IsIdle nothing []
nothing-IsIdle = record {
  idle = refl;
  fs_distinct = tt;
  blocks = record {
    apart = λ b c s t h. absurd (ground arith);
    in_range = λ b s h. absurd (ground arith);
    null = refl;
  };
  count = omega arith;
  most = omega arith;
}

mp_new-Created_example :
    Returns (Refuses above 1000 nothing) (Created 1000 [] nothing) (mp_new above 1000 nothing)
mp_new-Created_example = mp_new-Created above 1000 nothing [] nothing-IsIdle (omega arith)

-- A pool of two chunks: the first, at 64, is full; 100 bytes of the second, at 4096, are taken.
abbrev two_headers : ℕ → Header
two_headers p =
    if p == 64
    then record { prev = 4096; avail = 4220; limit = 5120 }
    else record { prev = 0; avail = 1088; limit = 1088 }

abbrev two_chunks : Memory
two_chunks = record {
  blocks = (64, 1024) ∷ (4096, 1024) ∷ [];
  header = two_headers;
  byte = λ _. 0;
  freechunks = 0;
  nfree = 0;
}

two_chunks-IsPool : IsPool two_chunks 64 (4096 ∷ []) []
two_chunks-IsPool = record {
  chain = (
    refl,
    record {
      chunk = record { size = 1024; live = refl; ends = refl; big = omega arith };
      low = omega arith;
      high = omega arith;
    },
    (
      refl,
      record {
        chunk = record { size = 1024; live = refl; ends = refl; big = omega arith };
        low = omega arith;
        high = omega arith;
      },
    ),
  );
  idle = refl;
  mp_cs = (ground arith, tt);
  mp_fs = tt;
  cs_distinct = (tt, tt);
  fs_distinct = tt;
  cs_fs = tt;
  blocks = record {
    apart = λ b c s t h k ne. ground arith;
    in_range = λ b s h. ground arith;
    null = refl;
  };
  count = omega arith;
  most = omega arith;
}

mp_free-Freed_example :
    Returns ⊥ (λ _. Freed 64 (4096 ∷ []) [] two_chunks) (mp_free 2 64 two_chunks)
mp_free-Freed_example = mp_free-Freed 64 2 two_chunks (4096 ∷ []) [] two_chunks-IsPool (omega arith)

mp_delete-Deleted_example :
    Returns ⊥ (λ _. Deleted true 64 (4096 ∷ []) [] two_chunks) (mp_delete 2 64 true two_chunks)
mp_delete-Deleted_example =
    mp_delete-Deleted true 64 2 two_chunks (4096 ∷ []) [] two_chunks-IsPool (omega arith)

mp_strndup-Filled_example :
    Returns
      (OutOfMemory above (3 + 1) 64 two_chunks)
      (Filled (3 + 1) (take 3 (bytes "/abc") ++ 0 ∷ []) 64 (4096 ∷ []) [] two_chunks)
      (mp_strndup above 12 64 (bytes "/abc") 3 two_chunks)
mp_strndup-Filled_example =
    mp_strndup-Filled above 64 12 two_chunks (4096 ∷ []) [] two_chunks-IsPool (omega arith)
      (bytes "/abc") 3 (omega arith) (omega arith)
