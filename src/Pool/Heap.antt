-- ===== src/Pool/Heap.antt =====
-- The memory under the pools: the blocks of `posix_memalign` that are live, the pool headers,
-- the bytes of the rest, and the two globals of mem.c.
use gfhttpd.Base.{
  ℕ, ◌+◌, ◌^◌, ◌≤◌, ◌<◌, ◌≡◌, ◌≢◌, ◌⊎◌, Bool, false, List, [], ◌∷◌, Option, none, some, Run, ok,
  fault, abort, out_of_fuel, leb, ◌==◌, if◌then◌else◌, Bytes, length, take, ◌&&◌, ◌||◌,
}

-- `struct mem_pool`
pub record Header : Type 0 where
  pub prev : ℕ
  pub avail : ℕ
  pub limit : ℕ

-- `sizeof(struct mem_pool)`
abbrev pub header_size : ℕ
header_size = 24

-- Address and size of each live block.
abbrev pub Blocks : Type 0
Blocks = List (ℕ × ℕ)

abbrev pub find : ℕ → Blocks → Option ℕ
find p [] = none
find p ((b, size) ∷ bs) = if b == p then some size else find p bs

abbrev pub remove : ℕ → Blocks → Blocks
remove p [] = []
remove p ((b, size) ∷ bs) = let rest = remove p bs in if b == p then rest else (b, size) ∷ rest

-- `nfree` stays at least 0, as the pools' invariant shows, so that a natural number stands for
-- the `int`.
pub record Memory : Type 0 where
  pub blocks : Blocks
  pub header : ℕ → Header
  pub byte : ℕ → ℕ
  pub freechunks : ℕ
  pub nfree : ℕ

-- `posix_memalign` with alignment 16: the address of a new block, or `none` if it fails.
pub record Allocator : Type 0 where
  pub place : Blocks → ℕ → Option ℕ
  pub nonnull : {bs : Blocks} {size p : ℕ} → place bs size ≡ some p → p ≢ 0
  pub fresh : {bs : Blocks} {size p : ℕ} → place bs size ≡ some p → find p bs ≡ none
  pub in_range : {bs : Blocks} {size p : ℕ} → place bs size ≡ some p → p + size < 2 ^ 64
  pub apart :
      {bs : Blocks} {size p : ℕ}
      → place bs size ≡ some p
      → (b s : ℕ) → find b bs ≡ some s
      → (b + s ≤ p) ⊎ (p + size ≤ b)

abbrev pub Cmd : Type 0 → Type 0
Cmd A = Memory → Run (A × Memory)

abbrev pub pure : {A : Type 0} → A → Cmd A
pure x m = ok (x, m)

module _ {A B : Type 0} where
  abbrev pub and_then : Run (A × Memory) → (A → Cmd B) → Run (B × Memory)
  and_then (ok (x, m)) k = k x m
  and_then fault k = fault
  and_then abort k = abort
  and_then out_of_fuel k = out_of_fuel

  infixl 5 ◌>>=◌ ◌>>◌
  abbrev pub ◌>>=◌ : Cmd A → (A → Cmd B) → Cmd B
  c >>= k = λ m. and_then (c m) k

  abbrev pub ◌>>◌ : Cmd A → Cmd B → Cmd B
  c >> d = c >>= λ _. d

-- `assert` of the negation of `failed`.
abbrev pub assert : Bool → Cmd (Unit {0})
assert failed m = if failed then abort else ok (tt, m)

-- A header may be read or written only at the start of a live block that can hold it.
abbrev pub holds_header : ℕ → Blocks → Bool
holds_header p bs = elim (find p bs) [ none ↦ false | some size ↦ leb header_size size ]

unfoldable pub load : ℕ → Cmd Header
load p m = if holds_header p m.blocks then ok (m.header p, m) else fault

abbrev pub update {ℓ} : {A : Type ℓ} → (ℕ → A) → ℕ → A → ℕ → A
update f p v a = if a == p then v else f a

unfoldable pub store : ℕ → Header → Cmd (Unit {0})
store p hd m =
    if holds_header p m.blocks then ok (tt, record m { header = update m.header p hd }) else fault

-- A failure of `posix_memalign` fails the `assert` behind each call of it.
unfoldable pub claim : Allocator → ℕ → Cmd ℕ
claim a size m = elim (a.place m.blocks size) [
  | none ↦ abort
  | some p ↦ ok (p, record m { blocks = (p, size) ∷ m.blocks })
]

unfoldable pub free : ℕ → Cmd (Unit {0})
free p m = elim (find p m.blocks) [
  | none ↦ fault
  | some _ ↦ ok (tt, record m { blocks = remove p m.blocks })
]

abbrev pub get_global : Cmd (ℕ × ℕ)
get_global m = ok ((m.freechunks, m.nfree), m)

abbrev pub set_free : ℕ → ℕ → Cmd (Unit {0})
set_free p n m = ok (tt, record m { freechunks = p; nfree = n })

-- Whether one live block holds the `n` bytes from `p` on.
abbrev pub in_block : ℕ → ℕ → Blocks → Bool
in_block p n [] = false
in_block p n ((b, size) ∷ bs) = (leb b p && leb (p + n) (b + size)) || in_block p n bs

abbrev pub write_all : (ℕ → ℕ) → ℕ → Bytes → ℕ → ℕ
write_all f p [] = f
write_all f p (v ∷ vs) = write_all (update f p v) (p + 1) vs

-- `memset` and `memcpy` to `p`.
unfoldable pub write_bytes : ℕ → Bytes → Cmd (Unit {0})
write_bytes p vs m =
    if in_block p (length vs) m.blocks
    then ok (tt, record m { byte = write_all m.byte p vs })
    else fault

-- The source of a `memcpy` of `n` bytes: the buffer `s` must hold them.
abbrev pub copy_from : Bytes → ℕ → Cmd Bytes
copy_from s n m = if leb n (length s) then ok (take n s, m) else fault
