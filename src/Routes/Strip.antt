-- ===== src/Routes/Strip.antt =====
-- The path that `match_route` hands to the modules.
use gfhttpd.Base.{
  ℕ, zero, suc, ◌+◌, ◌-◌, ◌^◌, ◌≤◌, ◌<◌, ◌≡◌, ◌≢◌, refl, ap, true, List, [], ◌∷◌, ok, Bytes, length,
  drop, pos, arith, ◌∙◌, to_int, size_sub, ==_iff, ℕ_discrete,
}
use gfhttpd.Path.{is_rooted}
use gfhttpd.Routes.{char_at, previous_slash, strip_path, last_pair, root}

-- `q` is the position of the last slash of `s` up to position `p`.
pub record IsLastSlash (s : Bytes) (p q : ℕ) : Type 0 where
  pub bound : q ≤ p
  pub slash : char_at s q ≡ ok b'/'
  pub latest : (k : ℕ) → q < k → k ≤ p → char_at s k ≢ ok b'/'

char_at-ok : (s : Bytes) (p : ℕ) → p ≤ length s → (c : ℕ) × (char_at s p ≡ ok c)
char_at-ok [] zero h = (0, refl)
char_at-ok [] (suc p) h = absurd (omega arith)
char_at-ok (c ∷ s) zero h = (c, refl)
char_at-ok (c ∷ s) (suc p) h = char_at-ok s p (omega arith)

further :
    {s : Bytes} {p q c : ℕ}
    → char_at s (suc p) ≡ ok c
    → c ≢ b'/'
    → IsLastSlash s p q
    → IsLastSlash s (suc p) q
further {s} {p} {q} {c} e other last = record {
  bound = let b = last.bound in omega arith;
  slash = last.slash;
  latest = λ k above below. elim (ℕ_discrete k (suc p)) [
    | yes top ↦ (λ at. absurd (other (cc)))
    | no lower ↦ last.latest k above (omega arith)
  ];
}

pub previous_slash_lem :
    (p : ℕ) (s : Bytes)
    → p ≤ length s
    → is_rooted s ≡ true
    → (q : ℕ) × (previous_slash p s ≡ ok q) × IsLastSlash s p q
unfolding previous_slash
previous_slash_lem p [] h rooted = absurd (ground arith)
previous_slash_lem zero (c ∷ s) h rooted = (
  0,
  ground (arith, ==_iff c b'/'),
  record {
    bound = omega arith;
    slash = ap ok ((==_iff c b'/').0 rooted);
    latest = λ k above below. absurd (omega arith);
  },
)
previous_slash_lem (suc p) (b ∷ s) h rooted =
    let (c, e) = char_at-ok s p (omega arith) in
    elim (ℕ_discrete c b'/') [
      | yes slash ↦ (
        suc p,
        rw (e, slash),
        record {
          bound = omega arith;
          slash = e ∙ ap ok slash;
          latest = λ k above below. absurd (omega arith);
        },
      )
      | no other ↦
          (let (q, found, last) = previous_slash_lem p (b ∷ s) (omega arith) rooted in
            (q, rw e (ground (arith, ==_iff c b'/', found)), further e other last))
    ]

-- The pairs of an ovector as PCRE2 documents them: each is a range of the subject. What the
-- last group takes is no longer than the whole match.
pub record IsNested (size : ℕ) (full : ℕ × ℕ) (groups : List (ℕ × ℕ)) : Type 0 where
  pub full_ordered : full.0 ≤ full.1
  pub full_bound : full.1 ≤ size
  pub sub_ordered : (last_pair full groups).0 ≤ (last_pair full groups).1
  pub sub_bound : (last_pair full groups).1 ≤ size
  pub sub_shorter : (last_pair full groups).1 + full.0 ≤ (last_pair full groups).0 + full.1

-- How much of the whole match stands beside its last group.
abbrev pub beside : ℕ × ℕ → List (ℕ × ℕ) → ℕ
beside full groups = (full.1 + (last_pair full groups).0) - (full.0 + (last_pair full groups).1)

size_sub_lem : (m n : ℕ) → n ≤ m → m < 2 ^ 31 → size_sub m n ≡ m - n
size_sub_lem m n le h = omega arith

to_int-pos : (n : ℕ) → n < 2 ^ 31 → to_int (pos n) ≡ pos n
to_int-pos n h = ground arith

offset_lem :
    (m n a b : ℕ)
    → m ≤ n
    → n < 2 ^ 31
    → a ≤ b
    → b < 2 ^ 31
    → b + m ≤ a + n
    → to_int (pos (size_sub (size_sub n m) (size_sub b a))) ≡ pos ((n + a) - (m + b))
offset_lem m n a b h1 h2 h3 h5 h4 =
    rw (size_sub_lem n m h1 h2, size_sub_lem b a h3 (omega arith))
      (let e = size_sub_lem (n - m) (b - a) (omega arith) (omega arith) in
        let e' : (n - m) - (b - a) ≡ (n + a) - (m + b) = omega arith in
        rw (e, e') (to_int-pos ((n + a) - (m + b)) (omega arith)))

-- The path for the modules after a match: "/" if there is no group; else what follows from the
-- last slash at or before the offset that the length of the match without its last group gives.
pub data IsStripped (s : Bytes) : List (ℕ × ℕ) → Bytes → Type 0 where
  whole : (full : ℕ × ℕ) → IsStripped s (full ∷ []) root
  from_slash :
      (full g : ℕ × ℕ) (groups : List (ℕ × ℕ)) (q : ℕ)
      → IsLastSlash s (beside full (g ∷ groups)) q
      → IsStripped s (full ∷ g ∷ groups) (drop q s)

-- On a rooted path of less than 2^31 bytes, with an ovector whose pairs are ranges of the path and
-- whose last group is not longer than the match, the path for the modules is "/" if there is no
-- group; else it is what follows from the last slash at or before the offset that the length of
-- the match without its last group gives.
pub strip_path-IsStripped :
    (s : Bytes) (full : ℕ × ℕ) (groups : List (ℕ × ℕ))
    → is_rooted s ≡ true
    → length s < 2 ^ 31
    → IsNested (length s) full groups
    → (t : Bytes) × (strip_path s full groups ≡ ok t) × IsStripped s (full ∷ groups) t
unfolding strip_path
strip_path-IsStripped s full [] rooted small nested = (root, refl, whole full)
strip_path-IsStripped s full (g ∷ groups) rooted small nested =
    let f1 = nested.full_ordered in
    let f2 = nested.full_bound in
    let f3 = nested.sub_ordered in
    let f4 = nested.sub_shorter in
    let f5 = nested.sub_bound in
    let (q, found, last) = previous_slash_lem (beside full (g ∷ groups)) s (omega arith) rooted in
    let e =
      offset_lem (full.0) (full.1) (last_pair g groups).0 (last_pair g groups).1 f1 (omega arith) f3
        (omega arith) f4 in
    (drop q s, rw (e, found), from_slash full g groups q last)
