-- ===== src/Pool/Release.antt =====
-- The loop of `mp_free`, and `mp_delete`.
use gfhttpd.Base.{
  ℕ, zero, suc, ◌+◌, ◌<◌, ◌≡◌, ◌≢◌, inl, inr, refl, sym, ◌∙◌, true, false, List, [], ◌∷◌, ltb, some,
  arith, ◌==◌, length, ok, Bool-cases, ltb→lt, ==_refl,
}
use gfhttpd.Pool.Heap.{Header, find, remove, Memory, holds_header, update}
use gfhttpd.Pool.{threshold, free_loop, mp_free}
use gfhttpd.Pool.Outcome.{Returns, returns, bind, mono}
use gfhttpd.Pool.Invariant.{IsPool, AgreeOn, AgreeOn-update, AgreeOn-refl, Chunk-live, base-live}
use gfhttpd.Pool.Rounds.{store-ok, load-ok, free-ok}
use mathlib.Core.Path.{subst}
use gfhttpd.Pool.Free.{
  first_header, Freed, find-remove, find-remove_ne, cached, returned_to, cached-IsPool,
  returned_to-IsPool,
}

module _ (m : Memory) (mp fuel : ℕ) (base : holds_header mp m.blocks ≡ true) where
  abbrev last_chunk : ℕ
  last_chunk = (m.header mp).prev

  free_loop-done : (last_chunk == 0) ≡ true → free_loop (suc fuel) mp m ≡ ok (tt, m)
  unfolding free_loop
  free_loop-done e = rw (load-ok mp m base, e)

  free_loop-cached :
      (last_chunk == 0) ≡ false
      → holds_header last_chunk m.blocks ≡ true
      → ltb m.nfree threshold ≡ true
      → free_loop (suc fuel) mp m ≡ free_loop fuel mp (cached m mp last_chunk)
  unfolding free_loop
  free_loop-cached e live below =
      rw
        (
          load-ok mp m base,
          e,
          load-ok last_chunk m live,
          below,
          store-ok last_chunk
              (record (m.header last_chunk) { prev = m.freechunks; limit = (m.header mp).limit }) m
              live,
          store-ok mp (m.header last_chunk)
              (record m {
                header = update m.header last_chunk (record (m.header last_chunk) {
                  prev = m.freechunks;
                  limit = (m.header mp).limit;
                });
                freechunks = last_chunk;
                nfree = m.nfree + 1;
              })
              base,
        )
        refl

  free_loop-returned :
      (size : ℕ)
      → (last_chunk == 0) ≡ false
      → holds_header last_chunk m.blocks ≡ true
      → find last_chunk m.blocks ≡ some size
      → mp ≢ last_chunk
      → ltb m.nfree threshold ≡ false
      → free_loop (suc fuel) mp m ≡ free_loop fuel mp (returned_to m mp last_chunk)
  unfolding free_loop
  free_loop-returned size e live found ne full =
      let base' : holds_header mp (remove last_chunk m.blocks) ≡ true =
        rw (find-remove_ne mp last_chunk m.blocks ne, holds_header) base in
      rw
        (
          load-ok mp m base,
          e,
          load-ok last_chunk m live,
          full,
          free-ok last_chunk size m found,
          store-ok mp (m.header last_chunk) (record m { blocks = remove last_chunk m.blocks })
              base',
        )
        refl

first_header-frame :
    (h h' : ℕ → Header) (hd : Header) (cs : List ℕ)
    → AgreeOn h h' cs
    → first_header h' hd cs ≡ first_header h hd cs
first_header-frame h h' hd [] same = refl
first_header-frame h h' hd (c ∷ cs) (e, same) = rw e (first_header-frame h h' (h c) cs same)

-- The rounds compose.
module _ (m m' : Memory) (mp c : ℕ) (cs fs : List ℕ) (pool : IsPool m mp (c ∷ cs) fs) where
  Freed-cached :
      m.nfree < threshold → Freed mp cs (c ∷ fs) (cached m mp c) m' → Freed mp (c ∷ cs) fs m m'
  Freed-cached below d = record {
    left = d.left;
    pool = d.pool;
    first =
        d.first
        ∙ rw (==_refl mp) (
            first_header-frame m.header _ (m.header c) cs (
              AgreeOn-update m.header _ mp _ cs pool.mp_cs.1 (
                AgreeOn-update m.header m.header c _ cs pool.cs_distinct.0
                  (AgreeOn-refl m.header cs))));
    kept = λ q h. d.kept q (inr h);
    returned = (inl (d.kept c (inl refl)), d.returned);
    gone = d.gone;
    spared = λ q out. d.spared q out.1;
    headers = λ q ne out. d.headers q ne out.1 ∙ untouched q ne out.0;
    bytes = d.bytes;
    full = λ e. absurd (omega arith);
  }
    where
      untouched : (q : ℕ) → q ≢ mp → c ≢ q → (cached m mp c).header q ≡ m.header q
      untouched q ne other = ground arith

  Freed-returned : Freed mp cs fs (returned_to m mp c) m' → Freed mp (c ∷ cs) fs m m'
  Freed-returned d = record {
    left = d.left;
    pool = d.pool;
    first =
        d.first
        ∙ rw (==_refl mp) (
            first_header-frame m.header _ (m.header c) cs
              (AgreeOn-update m.header m.header mp _ cs pool.mp_cs.1 (AgreeOn-refl m.header cs)));
    kept = d.kept;
    returned = (inr (d.gone c (ground (arith, find-remove c c m.blocks))), d.returned);
    gone = λ q e. d.gone q (ground (arith, find-remove q c m.blocks));
    spared = λ q out. d.spared q out.1 ∙ find-remove_ne q c m.blocks (λ e. out.0 (sym e));
    headers = λ q ne out. d.headers q ne out.1 ∙ untouched q ne;
    bytes = d.bytes;
    full = d.full;
  }
    where
      untouched : (q : ℕ) → q ≢ mp → (returned_to m mp c).header q ≡ m.header q
      untouched q ne = ground arith

-- One round, given what the later rounds do.
free_round :
    (mp fuel : ℕ) (m : Memory) (cs fs : List ℕ)
    → IsPool m mp ((m.header mp).prev ∷ cs) fs
    → ((m' : Memory) (gs : List ℕ)
        → IsPool m' mp cs gs
        → Returns ⊥ (λ _. Freed mp cs gs m') (free_loop fuel mp m'))
    → Returns ⊥ (λ _. Freed mp ((m.header mp).prev ∷ cs) fs m) (free_loop (suc fuel) mp m)
free_round mp fuel m cs fs pool next =
    let c = (m.header mp).prev in
    let base = base-live _ _ mp _ (c ∷ cs) pool.chain in
    let chunk = pool.chain.1.chunk in
    let live = Chunk-live chunk in
    let e : (c == 0) ≡ false = ground (arith, pool.blocks.null, chunk.live) in
    elim (Bool-cases (ltb m.nfree threshold)) [
      | inl below ↦
          let pool' = cached-IsPool m mp c cs fs pool (ltb→lt _ _ below) in
          rw (free_loop-cached m mp fuel base e live below) (
            mono (next (cached m mp c) (c ∷ fs) pool')
              λ _ m'. Freed-cached m m' mp c cs fs pool (ltb→lt _ _ below))
      | inr full ↦
          let pool' = returned_to-IsPool m mp c cs fs pool in
          rw
            (free_loop-returned m mp fuel base chunk.size e live chunk.live
              (λ f. pool.mp_cs.0 (sym f)) full)
            (mono (next (returned_to m mp c) fs pool') λ _ m'. Freed-returned m m' mp c cs fs pool)
    ]

free_loop-Freed :
    (mp fuel : ℕ) (m : Memory) (cs fs : List ℕ)
    → IsPool m mp cs fs
    → length cs < fuel
    → Returns ⊥ (λ _. Freed mp cs fs m) (free_loop fuel mp m)
free_loop-Freed mp zero m cs fs pool enough = absurd (omega arith)
free_loop-Freed mp (suc fuel) m [] fs pool enough =
    let e : ((m.header mp).prev == 0) ≡ true = ground (arith, pool.chain.0) in
    rw (free_loop-done m mp fuel (base-live m.blocks m.header mp _ [] pool.chain) e) (
      returns (record {
        left = fs;
        pool = pool;
        first = refl;
        kept = λ q h. h;
        returned = tt;
        gone = λ q h. h;
        spared = λ q h. refl;
        headers = λ q ne out. refl;
        bytes = refl;
        full = λ full. (refl, full);
      }))
free_loop-Freed mp (suc fuel) m (c ∷ cs) fs pool enough =
    let at = pool.chain.0 in
    subst (λ x. Returns ⊥ (λ _. Freed mp (x ∷ cs) fs m) (free_loop (suc fuel) mp m)) at
      (free_round mp fuel m cs fs (subst (λ x. IsPool m mp (x ∷ cs) fs) (sym at) pool)
        λ m' gs pool'. free_loop-Freed mp fuel m' cs gs pool' (omega arith))

-- `mp_free` returns with the pool reduced to its first chunk, as it was when that was the only
-- one; each other chunk is on the list of free chunks or given back, those on the list before
-- are still there, and no other block or header is touched. No `assert` fails.
pub mp_free-Freed :
    (mp fuel : ℕ) (m : Memory) (cs fs : List ℕ)
    → IsPool m mp cs fs
    → length cs < fuel
    → Returns ⊥ (λ _. Freed mp cs fs m) (mp_free fuel mp m)
unfolding mp_free
mp_free-Freed mp fuel m cs fs pool enough =
    let base = base-live _ _ mp _ cs pool.chain in
    let e : (mp == 0) ≡ false = ground (arith, pool.blocks.null) in
    rw e (
      bind (free_loop-Freed mp fuel m cs fs pool enough) λ _ m' d.
        let fits = d.pool.chain.1 in
        let f : ((m'.header mp).limit == 0) ≡ false = ground (arith, fits.low, fits.high) in
        let g : ((m'.header mp).avail == 0) ≡ false = ground (arith, fits.low, fits.high) in
        rw (load-ok mp m' (base-live m'.blocks m'.header mp _ [] d.pool.chain), f, g) (returns d))
