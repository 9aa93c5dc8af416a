-- ===== src/Path/Segments.antt =====
-- An independent description of a safe request path: its segments between slashes.
use gfhttpd.Base.{
  ℕ, ◌-◌, ◌≡◌, refl, ◌≢◌, ◌↔◌, ◌<◌, ◌≤◌, Bool, true, false, ◌&&◌, ◌||◌, List, [], ◌∷◌, ◌++◌, arith,
  Bytes, bytes, length, ◌==◌, if◌then◌else◌, starts_with, strstr, strchr, bytes_eq, bytes_eq_iff,
  All, suc, dec_lt, ℕ_discrete, ==_iff,
}
use gfhttpd.Path.{ends_with, is_rooted, check_path}

-- One byte more at the front of the first segment.
abbrev pub grow : ℕ → List Bytes → List Bytes
grow c [] = (c ∷ []) ∷ []
grow c (seg ∷ segs) = (c ∷ seg) ∷ segs

-- The segments of a path, "a//b" having an empty one in the middle.
unfoldable pub segments : Bytes → List Bytes
segments [] = [] ∷ []
segments (c ∷ s) = if c == b'/' then [] ∷ segments s else grow c (segments s)

abbrev first : List Bytes → Bytes
first [] = []
first (seg ∷ _) = seg

abbrev rest : List Bytes → List Bytes
rest [] = []
rest (_ ∷ segs) = segs

abbrev any_is : Bytes → List Bytes → Bool
any_is d [] = false
any_is d (seg ∷ segs) = bytes_eq seg d || any_is d segs

-- `s` is `d`, or begins with `d` and a slash.
abbrev at : Bytes → Bytes → Bool
at [] [] = true
at [] (c ∷ s) = c == b'/'
at (x ∷ d) [] = false
at (x ∷ d) (c ∷ s) = (c == x) && at d s

-- Somewhere in `s` stands a slash that `d` follows, up to the next slash or the end.
abbrev after_slash : Bytes → Bytes → Bool
after_slash d [] = false
after_slash d (c ∷ s) = ((c == b'/') && at d s) || after_slash d s

-- `d` holds no slash.
abbrev IsName : Bytes → Type 0
IsName d = All (λ c. c ≢ b'/') d

segments-cons : (s : Bytes) → segments s ≡ first (segments s) ∷ rest (segments s)
unfolding segments
segments-cons [] = refl
segments-cons (c ∷ s) = ground (arith, segments-cons s)

first-at : (d s : Bytes) → IsName d → bytes_eq (first (segments s)) d ≡ at d s
unfolding segments
first-at [] [] h = refl
first-at (x ∷ d) [] h = refl
first-at [] (c ∷ s) h = ground (arith, segments-cons s)
first-at (x ∷ d) (c ∷ s) (ne, h) = ground (arith, segments-cons s, first-at d s h)

rest-after_slash : (d s : Bytes) → IsName d → any_is d (rest (segments s)) ≡ after_slash d s
unfolding segments
rest-after_slash d [] h = refl
rest-after_slash d (c ∷ s) h =
    ground (arith, segments-cons s, first-at d s h, rest-after_slash d s h)

abbrev ends_tail : Bytes → Bytes → Bool
ends_tail [] sub = bytes_eq [] sub
ends_tail (c ∷ s) sub = bytes_eq (c ∷ s) sub || ends_tail s sub

bytes_eq_of_length : (s t : Bytes) → length s ≢ length t → bytes_eq s t ≡ false
bytes_eq_of_length [] [] h = absurd (h refl)
bytes_eq_of_length [] (b ∷ t) h = refl
bytes_eq_of_length (a ∷ s) [] h = refl
bytes_eq_of_length (a ∷ s) (b ∷ t) h = ground (arith, bytes_eq_of_length s t (λ e. h (omega arith)))

starts_with-eq-bytes_eq : (s t : Bytes) → length s ≡ length t → starts_with s t ≡ bytes_eq s t
starts_with-eq-bytes_eq [] [] h = refl
starts_with-eq-bytes_eq [] (b ∷ t) h = refl
starts_with-eq-bytes_eq (a ∷ s) [] h = absurd (omega arith)
starts_with-eq-bytes_eq (a ∷ s) (b ∷ t) h = rw (starts_with-eq-bytes_eq s t (omega arith))

ends_tail_of_short : (s sub : Bytes) → length s < length sub → ends_tail s sub ≡ false
ends_tail_of_short [] sub h = bytes_eq_of_length [] sub (λ e. omega arith)
ends_tail_of_short (c ∷ s) sub h =
    ground (arith, bytes_eq_of_length (c ∷ s) sub (λ e. omega arith), ends_tail_of_short s sub)

-- The rounds of `ends_tail` at which the rest is longer than `sub`, and the last one.
module _ (c : ℕ) (s sub : Bytes) where
  ends_with_longer : length sub ≤ length s → ends_with (c ∷ s) sub ≡ ends_with s sub
  unfolding ends_with
  ends_with_longer h =
      let e : suc (length s) - length sub ≡ suc (length s - length sub) = omega arith in
      rw e (ground arith)

  ends_with_exact : length s < length sub → ends_with (c ∷ s) sub ≡ bytes_eq (c ∷ s) sub
  unfolding ends_with
  ends_with_exact h =
      let e : suc (length s) - length sub ≡ 0 = omega arith in
      rw e (ground (arith, starts_with-eq-bytes_eq (c ∷ s) sub, bytes_eq_of_length (c ∷ s) sub))

ends_with-eq-ends_tail : (s sub : Bytes) → ends_with s sub ≡ ends_tail s sub
ends_with-eq-ends_tail [] [] = unfold ends_with in refl
ends_with-eq-ends_tail [] (b ∷ t) = unfold ends_with in ground arith
ends_with-eq-ends_tail (c ∷ s) sub = elim (dec_lt (length s) (length sub)) [
  | yes short ↦ ground (arith, ends_with_exact c s sub short, ends_tail_of_short s sub short)
  | no long ↦ ground (
    arith,
    ends_with_longer c s sub (omega arith),
    bytes_eq_of_length (c ∷ s) sub (λ e. omega arith),
    ends_with-eq-ends_tail s sub,
  )
]

at_lem : (d s : Bytes) → at d s ≡ (starts_with s (d ++ b'/' ∷ []) || bytes_eq s d)
at_lem [] [] = refl
at_lem [] (c ∷ s) = ground arith
at_lem (x ∷ d) [] = refl
at_lem (x ∷ d) (c ∷ s) = ground (arith, at_lem d s)

after_slash_lem :
    (d s : Bytes) → after_slash d s ≡ (strstr s (b'/' ∷ d ++ b'/' ∷ []) || ends_tail s (b'/' ∷ d))
after_slash_lem d [] = refl
after_slash_lem d (c ∷ s) = ground (arith, at_lem d s, after_slash_lem d s)

-- `d` is no segment of `s` exactly when the two tests of `check_path` for it fail, if `s` begins
-- with a slash.
any_is-segments :
    (d s : Bytes)
    → IsName d
    → d ≢ []
    → any_is d (segments (b'/' ∷ s))
      ≡ (strstr (b'/' ∷ s) (b'/' ∷ d ++ b'/' ∷ []) || ends_with (b'/' ∷ s) (b'/' ∷ d))
unfolding segments
any_is-segments d s h ne = ground (
  arith,
  rest-after_slash d (b'/' ∷ s) h,
  after_slash_lem d (b'/' ∷ s),
  ends_with-eq-ends_tail (b'/' ∷ s) (b'/' ∷ d),
  bytes_eq_iff [] d,
)

pub record IsSafePath (path : Bytes) : Type 0 where
  pub rooted : is_rooted path ≡ true
  pub no_backslash : All (λ c. c ≢ b'\\') path
  pub plain : All (λ seg. (seg ≢ bytes ".") × (seg ≢ bytes "..")) (segments path)

no_backslash_iff : (c : ℕ) (s : Bytes) → (strchr s c ≡ false) ↔ All (λ a. a ≢ c) s
no_backslash_iff c [] = ground arith
no_backslash_iff c (a ∷ s) = ground (arith, no_backslash_iff c s)

plain_iff :
    (d e : Bytes) (segs : List Bytes)
    → ((any_is d segs || any_is e segs) ≡ false) ↔ All (λ seg. (seg ≢ d) × (seg ≢ e)) segs
plain_iff d e [] = ground arith
plain_iff d e (seg ∷ segs) =
    ground (arith, plain_iff d e segs, bytes_eq_iff seg d, bytes_eq_iff seg e)

-- The four tests for dots at once, on a path that begins with a slash.
dots_iff :
    (s : Bytes)
    → ((any_is (bytes ".") (segments (b'/' ∷ s)) || any_is (bytes "..") (segments (b'/' ∷ s)))
        ≡ false)
      ↔ ((strstr (b'/' ∷ s) (bytes "/../") ≡ false)
          × (strstr (b'/' ∷ s) (bytes "/./") ≡ false)
          × (ends_with (b'/' ∷ s) (bytes "/..") ≡ false)
          × (ends_with (b'/' ∷ s) (bytes "/.") ≡ false))
dots_iff s = ground (
  arith,
  any_is-segments (bytes ".") s (omega arith, tt) (λ e. cc),
  any_is-segments (bytes "..") s (omega arith, (omega arith, tt)) (λ e. cc),
)

check_path_of_rooted : (s : Bytes) → (check_path (b'/' ∷ s) ≡ true) ↔ IsSafePath (b'/' ∷ s)
unfolding check_path
check_path_of_rooted s =
    let plain = plain_iff (bytes ".") (bytes "..") (segments (b'/' ∷ s)) in
    let bare = no_backslash_iff b'\\' (b'/' ∷ s) in
    (
      λ h. record {
        rooted = refl;
        no_backslash = bare.0 (ground arith);
        plain = plain.0 ((dots_iff s).1 (ground arith));
      },
      λ safe. ground (arith, bare.1 safe.no_backslash, (dots_iff s).0 (plain.1 safe.plain)),
    )

-- `check_path` accepts exactly the paths that begin with a slash, hold no backslash, and have
-- no segment "." or "..".
pub check_path_iff : (path : Bytes) → (check_path path ≡ true) ↔ IsSafePath path
check_path_iff [] = unfold check_path in (λ h. cc, λ safe. cc (safe.rooted))
check_path_iff (c ∷ s) = elim (ℕ_discrete c b'/') [
  | yes e ↦ rw e (check_path_of_rooted s)
  | no other ↦
      unfold check_path in
      (λ h. absurd (other (ground arith)), λ safe. absurd (other ((==_iff c b'/').0 safe.rooted)))
]
