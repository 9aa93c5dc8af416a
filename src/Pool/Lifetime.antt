-- ===== src/Pool/Lifetime.antt =====
-- A pool from `mp_new` to `mp_delete`.
use gfhttpd.Base.{
  ℕ, ◌+◌, ◌^◌, ◌%◌, ◌≤◌, ◌<◌, ◌≡◌, ◌≢◌, ◌⊎◌, inl, inr, refl, sym, ◌∙◌, Bool, true, false, List, [],
  ◌∷◌, none, arith, ◌==◌, if◌then◌else◌, length, All, All-map, Option-cases, ==_refl,
}
use gfhttpd.Pool.Heap.{Header, header_size, Blocks, find, remove, Memory, Allocator, holds_header}
use gfhttpd.Pool.{u64, room, threshold}
use gfhttpd.Pool.Outcome.{Returns, returns, aborts, bind}
use gfhttpd.Pool.Invariant.{
  NotIn, IsFree, IsPool, Extends, AgreeOn-update, AgreeOn-refl, IsFree-frame, base-live,
}
use gfhttpd.Pool.Rounds.{store-ok, free-ok}
use mathlib.Core.Path.{subst}
use gfhttpd.Pool.{mp_delete}
use gfhttpd.Pool.Free.{
  Holds, Freed, find-remove, find-remove_ne, IsFree-remove, AreApart-remove, NotIn-sym, NotIn-tail,
}
use gfhttpd.Pool.{mp_new, align_size}
use gfhttpd.Pool.Invariant.{IsIdle}
use gfhttpd.Pool.Grow.{Refuses}
use gfhttpd.Pool.Link.{Extends-claim, claimed-AreApart}
use gfhttpd.Pool.Rounds.{claim-ok, claim-abort, claimed}
use gfhttpd.Pool.Release.{mp_free-Freed}

-- A new pool at `mp`, of one block that was not live before, with room for `n` bytes.
pub record Created (n : ℕ) (fs : List ℕ) (m : Memory) (mp : ℕ) (m' : Memory) : Type 0 where
  pub pool : IsPool m' mp [] fs
  pub fresh : find mp m.blocks ≡ none
  pub has_room : room (m'.header mp) ≡ n
  pub live : Extends m.blocks m'.blocks
  pub headers : (q : ℕ) → q ≢ mp → m'.header q ≡ m.header q
  pub bytes : m'.byte ≡ m.byte

IsFree-NotIn :
    (bs : Blocks) (h : ℕ → Header) (p q : ℕ) (fs : List ℕ)
    → find q bs ≡ none
    → IsFree bs h p fs
    → NotIn q fs
IsFree-NotIn bs h p q [] fresh e = tt
IsFree-NotIn bs h p q (f ∷ fs) fresh (at, chunk, idle) =
    (λ e. ground (arith, chunk.live), IsFree-NotIn bs h (h f).prev q fs fresh idle)

NotIn-nil : (fs : List ℕ) → All (λ f. NotIn f []) fs
NotIn-nil [] = tt
NotIn-nil (f ∷ fs) = (tt, NotIn-nil fs)

module _ (a : Allocator) (n : ℕ) (m : Memory) (fs : List ℕ) where
  -- `mp_new` makes a pool with room for the bytes that were asked for. It aborts only if
  -- `posix_memalign` refuses a block for a header and as many bytes.
  pub mp_new-Created :
      IsIdle m fs
      → header_size + n < 2 ^ 64
      → Returns (Refuses a n m) (Created n fs m) (mp_new a n m)
  unfolding mp_new
  mp_new-Created idle small =
      let size : ℕ = header_size + n in
      let fits : u64 size ≡ size = omega arith in
      elim (Option-cases (a.place m.blocks size)) [
        | inl failed ↦ rw (fits, claim-abort a size m failed) (aborts failed)
        | inr (p, got) ↦
            let fresh = a.fresh got in
            let out = IsFree-NotIn m.blocks m.header m.freechunks p fs fresh idle.idle in
            let hd : Header = record { prev = 0; avail = p + header_size; limit = p + size } in
            let m' = claimed m p size in
            let base : holds_header p m'.blocks ≡ true = ground arith in
            rw (fits, claim-ok a size m p got, store-ok p hd m' base)
              (returns (record {
                pool = record {
                  chain = rw (==_refl p) (
                    refl,
                    record {
                      chunk = record {
                        size = size;
                        live = ground arith;
                        ends = refl;
                        big = omega arith;
                      };
                      low = omega arith;
                      high = omega arith;
                    },
                  );
                  idle =
                      IsFree-frame m.blocks m'.blocks (Extends-claim m.blocks p size fresh) m.header
                        _ m.freechunks fs
                        (AgreeOn-update m.header m.header p _ fs out (AgreeOn-refl m.header fs))
                        idle.idle;
                  mp_cs = tt;
                  mp_fs = out;
                  cs_distinct = tt;
                  fs_distinct = idle.fs_distinct;
                  cs_fs = NotIn-nil fs;
                  blocks = claimed-AreApart m a p size got idle.blocks;
                  count = idle.count;
                  most = idle.most;
                };
                fresh = fresh;
                has_room = rw (==_refl p) (omega arith);
                live = Extends-claim m.blocks p size fresh;
                headers = λ q ne. ground arith;
                bytes = refl;
              }))
      ]

-- What `mp_delete` leaves: the free chunks `left`, and nothing of the pool but what is among
-- them; with `clean` the free chunks are those from before, so that all of the pool is gone.
pub record Deleted (clean : Bool) (mp : ℕ) (cs fs : List ℕ) (m m' : Memory) : Type 0 where
  pub left : List ℕ
  pub idle : IsIdle m' left
  pub first : find mp m'.blocks ≡ none
  pub kept : (q : ℕ) → Holds q fs → Holds q left
  pub returned : All (λ c. Holds c left ⊎ (find c m'.blocks ≡ none)) cs
  pub cleaned : clean ≡ true → (left ≡ fs) × All (λ c. find c m'.blocks ≡ none) cs
  pub spared : (q : ℕ) → NotIn q (mp ∷ cs) → find q m'.blocks ≡ find q m.blocks
  pub headers : (q : ℕ) → NotIn q (mp ∷ cs) → m'.header q ≡ m.header q

-- `nfree` as `mp_delete` sets it.
abbrev counted : Bool → Memory → Memory
counted clean m = record m { nfree = if clean then threshold else m.nfree }

counted-IsPool :
    (clean : Bool) (m : Memory) (mp : ℕ) (cs fs : List ℕ)
    → IsPool m mp cs fs
    → IsPool (counted clean m) mp cs fs
counted-IsPool clean m mp cs fs pool = record {
  chain = pool.chain;
  idle = pool.idle;
  mp_cs = pool.mp_cs;
  mp_fs = pool.mp_fs;
  cs_distinct = pool.cs_distinct;
  fs_distinct = pool.fs_distinct;
  cs_fs = pool.cs_fs;
  blocks = pool.blocks;
  count = ground (arith, pool.count, pool.most);
  most = ground (arith, pool.most);
}

not-Holds : (c : ℕ) (fs : List ℕ) → NotIn c fs → ¬ Holds c fs
not-Holds c [] out h = h
not-Holds c (f ∷ fs) (ne, out) (inl e) = ne e
not-Holds c (f ∷ fs) (ne, out) (inr h) = not-Holds c fs out h

all-gone :
    (bs : Blocks) (cs fs : List ℕ)
    → All (λ f. NotIn f cs) fs
    → All (λ c. Holds c fs ⊎ (find c bs ≡ none)) cs
    → All (λ c. find c bs ≡ none) cs
all-gone bs [] fs apart h = tt
all-gone bs (c ∷ cs) fs apart (inl here, h) = absurd (not-Holds c fs (NotIn-sym c cs fs apart) here)
all-gone bs (c ∷ cs) fs apart (inr e, h) = (e, all-gone bs cs fs (NotIn-tail c cs fs apart) h)

module _ (clean : Bool) (mp : ℕ) (cs fs : List ℕ) (m m' : Memory) (pool : IsPool m mp cs fs)
    (d : Freed mp cs fs (counted clean m) m') where
  gone-remove : (q : ℕ) → find q m'.blocks ≡ none → find q (remove mp m'.blocks) ≡ none
  gone-remove q e = ground (arith, find-remove q mp m'.blocks)

  freed-cleaned : clean ≡ true → (d.left ≡ fs) × All (λ c. find c (remove mp m'.blocks) ≡ none) cs
  freed-cleaned e =
      let full = d.full (rw e) in
      let still =
        subst (λ l. All (λ c. Holds c l ⊎ (find c m'.blocks ≡ none)) cs) full.0 d.returned in
      (full.0, All-map cs gone-remove (all-gone m'.blocks cs fs pool.cs_fs still))

  freed-Deleted : Deleted clean mp cs fs m (record m' { blocks = remove mp m'.blocks })
  freed-Deleted = record {
    left = d.left;
    idle = record {
      idle = IsFree-remove mp m'.blocks m'.header m'.freechunks d.left d.pool.mp_fs d.pool.idle;
      fs_distinct = d.pool.fs_distinct;
      blocks = AreApart-remove mp m'.blocks m'.header d.pool.blocks;
      count = d.pool.count;
      most = d.pool.most;
    };
    first = ground (arith, find-remove mp mp m'.blocks);
    kept = d.kept;
    returned =
        All-map cs (λ c h. elim h [ inl there ↦ inl there | inr e ↦ inr (gone-remove c e) ])
          d.returned;
    cleaned = freed-cleaned;
    spared = λ q out. find-remove_ne q mp m'.blocks (λ e. out.0 (sym e)) ∙ d.spared q out.1;
    headers = λ q out. d.headers q (λ e. out.0 (sym e)) out.1;
  }

-- `mp_delete` returns with the first chunk given back, and each other one given back or on the
-- list of free chunks, which stays well-formed; with `clean` all of them are given back. No other
-- block or header is touched, and no `assert` fails.
pub mp_delete-Deleted :
    (clean : Bool) (mp fuel : ℕ) (m : Memory) (cs fs : List ℕ)
    → IsPool m mp cs fs
    → length cs < fuel
    → Returns ⊥ (λ _. Deleted clean mp cs fs m) (mp_delete fuel mp clean m)
unfolding mp_delete
mp_delete-Deleted clean mp fuel m cs fs pool enough =
    let e : (mp == 0) ≡ false =
      ground (arith, pool.blocks.null, base-live _ m.header mp _ cs pool.chain) in
    rw e (
      bind
        (mp_free-Freed mp fuel (counted clean m) cs fs (counted-IsPool clean m mp cs fs pool)
          enough)
        λ _ m' d.
          let chunk = d.pool.chain.1.chunk in
          rw (free-ok mp chunk.size m' chunk.live)
            (returns (freed-Deleted clean mp cs fs m m' pool d)))

-- `align_size` rounds up to the next multiple of the alignment.
pub align_size_lem :
    (s : ℕ)
    → s + 15 < 2 ^ 64
    → (s ≤ align_size s) × (align_size s < s + 16) × (align_size s % 16 ≡ 0)
unfolding align_size
align_size_lem s h = omega arith
