-- ===== src/Pool/Alloc.antt =====
-- What `mp_alloc` guarantees to its caller.
use gfhttpd.Base.{
  none, ℕ, zero, suc, ◌+◌, ◌^◌, ◌≤◌, ◌<◌, ◌≡◌, ◌⊎◌, inl, inr, ◌∙◌, true, false, List, ◌∷◌, ltb,
  arith, ◌==◌, length, Option-cases, Bool-cases, ltb→lt,
}
use mathlib.Core.Path.{subst}
use gfhttpd.Pool.Heap.{header_size, Blocks, find, Memory, Allocator, holds_header}
use gfhttpd.Pool.{room, threshold, alloc_loop, mp_alloc}
use gfhttpd.Pool.Outcome.{Returns, returns, bind, mono, because}
use gfhttpd.Pool.Invariant.{NotIn, IsPool, Extends, base-live}
use gfhttpd.Pool.Rounds.{store-ok, load-ok}
use gfhttpd.Pool.Grow.{Refuses, Spares, Grown, add_chunk-Grown}
use gfhttpd.Pool.Bump.{Allocated, bump-Allocated, room-Fits, top, top-Fits}

pub holds_header-Extends :
    (bs bs' : Blocks) (q : ℕ)
    → Extends bs bs'
    → holds_header q bs ≡ true
    → holds_header q bs' ≡ true
holds_header-Extends bs bs' q grow h = elim (Option-cases (find q bs)) [
  | inl none_there ↦ ground arith
  | inr (s, e) ↦ ground (arith, grow q s)
]

-- The rounds compose.
Spares-trans :
    (mp : ℕ) (fs left : List ℕ) (m m' m'' : Memory)
    → ((q : ℕ) → NotIn q fs → NotIn q left)
    → Spares mp fs m m'
    → Spares mp left m' m''
    → Spares mp fs m m''
Spares-trans mp fs left m m' m'' fewer s t = record {
  live = λ b size e. t.live b size (s.live b size e);
  headers = λ q h ne out.
      t.headers q (holds_header-Extends m.blocks m'.blocks q s.live h) ne (fewer q out)
      ∙ s.headers q h ne out;
  bytes = t.bytes ∙ s.bytes;
}

Allocated-Grown :
    (n mp p : ℕ) (cs fs : List ℕ) (m m' m'' : Memory) (g : Grown n mp cs fs m m')
    → Allocated n mp (g.ptr ∷ cs) g.left m' p m''
    → Allocated n mp cs fs m p m''
Allocated-Grown n mp p cs fs m m' m'' g d = record {
  chunks = d.chunks;
  left = d.left;
  pool = d.pool;
  spared = Spares-trans mp fs g.left m m' m'' g.fewer g.spared d.spared;
  block = d.block;
  size = d.size;
  live = d.live;
  low = d.low;
  high = d.high;
  fresh = λ a lo hi u. d.fresh a lo hi ((g.used a).1 u);
  used = λ a. (
    λ u. elim ((d.used a).0 u) [ inl v ↦ inl ((g.used a).0 v) | inr new ↦ inr new ],
    λ u. elim u [ inl v ↦ (d.used a).1 (inl ((g.used a).1 v)) | inr new ↦ (d.used a).1 (inr new) ],
  );
}

-- Why an allocation of `n` bytes aborts: the pool's chunk has no room for them, and
-- `posix_memalign` refuses a block for a header and as many bytes, beside those that are live.
pub record OutOfMemory (a : Allocator) (n mp : ℕ) (m : Memory) : Type 0 where
  pub full : room (m.header mp) < n
  pub refused : Refuses a n m

-- A later round aborts for the same reason: the blocks are still the same, since a new chunk has
-- room enough.
earlier :
    (a : Allocator) (n mp : ℕ) (cs fs : List ℕ) (m m' : Memory) (g : Grown n mp cs fs m m')
    → room (m.header mp) < n
    → OutOfMemory a n mp m'
    → OutOfMemory a n mp m
earlier a n mp cs fs m m' g full o = record {
  full = full;
  refused = elim g.progress [
    | inl (fewer, same) ↦ subst (λ bs. a.place bs (header_size + n) ≡ none) same o.refused
    | inr just ↦ absurd (omega (arith, o.full, just))
  ];
}

module _ (a : Allocator) (mp n : ℕ) (small : header_size + n < 2 ^ 64) where
  alloc_loop-Allocated :
      (fuel : ℕ) (m : Memory) (cs fs : List ℕ)
      → IsPool m mp cs fs
      → (length fs + 2 ≤ fuel) ⊎ ((1 ≤ fuel) × (n ≤ room (m.header mp)))
      → Returns (OutOfMemory a n mp m) (Allocated n mp cs fs m) (alloc_loop a fuel mp n m)
  unfolding alloc_loop
  alloc_loop-Allocated zero m cs fs pool enough = absurd (omega arith)
  alloc_loop-Allocated (suc fuel) m cs fs pool enough =
      let base = base-live _ _ mp _ cs pool.chain in
      let fits = top-Fits m.blocks m.header mp (m.header mp) cs pool.chain in
      let left = room-Fits m.blocks (top mp cs) (m.header mp) pool.blocks fits in
      rw (load-ok mp m base) (elim (Bool-cases (ltb (room (m.header mp)) n)) [
        | inl short ↦
            let lt = ltb→lt _ _ short in
            rw short (
              bind
                (because (λ e. record { full = lt; refused = e })
                  (add_chunk-Grown a m mp n cs fs small pool))
                λ _ m' g.
                  let again : (length g.left + 2 ≤ fuel)
                      ⊎ ((1 ≤ fuel) × (n ≤ room (m'.header mp))) =
                    elim g.progress [
                      | inl (fewer, same) ↦ inl (omega arith)
                      | inr just ↦ inr (omega arith, omega arith)
                    ] in
                  mono
                    (because (earlier a n mp cs fs m m' g lt)
                      (alloc_loop-Allocated fuel m' (g.ptr ∷ cs) g.left g.pool again))
                    λ p m'' d. Allocated-Grown n mp p cs fs m m' m'' g d)
        | inr roomy ↦
            let fit : (m.header mp).avail + n ≤ (m.header mp).limit = ground (arith, fits.high) in
            rw
              (roomy, store-ok mp (record (m.header mp) { avail = (m.header mp).avail + n }) m base)
              (returns (bump-Allocated m mp n cs fs pool fit))
      ])

  pub mp_alloc-Allocated :
      (fuel : ℕ) (m : Memory) (cs fs : List ℕ)
      → IsPool m mp cs fs
      → 0 < n
      → threshold + 2 ≤ fuel
      → Returns (OutOfMemory a n mp m) (Allocated n mp cs fs m) (mp_alloc a fuel mp n m)
  unfolding mp_alloc
  mp_alloc-Allocated fuel m cs fs pool pos enough =
      let base = base-live _ _ mp _ cs pool.chain in
      let e : (mp == 0) ≡ false = ground (arith, pool.blocks.null) in
      let f : (n == 0) ≡ false = ground arith in
      rw (e, f)
        (alloc_loop-Allocated fuel m cs fs pool (inl (omega (arith, pool.count, pool.most))))
