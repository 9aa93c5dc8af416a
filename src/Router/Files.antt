-- ===== src/Router/Files.antt =====
-- Which files `root_router` opens, and how long it says they are.
use mathlib.Core.Path.{subst}
use gfhttpd.Base.{
  ℕ, suc, ◌+◌, ◌-◌, ◌%◌, ◌^◌, ◌<◌, ◌≡◌, ◌≢◌, ◌↔◌, refl, ap, ◌∙◌, Bool, true, false, not, Option,
  List, [], ◌∷◌, ◌++◌, ok, Bytes, bytes, length, take, ◌==◌, if◌then◌else◌, ℤ, pos, is_negative,
  is_zero, to_size, to_int, All, if-cases, arith, replicate, ==_iff, ok_of_bind, Option-cases, inl,
  inr, dec_lt,
}
use gfhttpd.Path.{is_rooted, check_path}
use gfhttpd.Path.Segments.{segments, grow, check_path_iff}
use gfhttpd.Routes.Interfaces.{HashTable, Pcre2}
use gfhttpd.Routes.{Route, RouteMatch}
use gfhttpd.Router.Calls.{System, Call, opened, scheduled, piped, wrote, closed}
use gfhttpd.Router.{
  Stream, Reply, get_socketpair, error_fd, skip_slashes, or_not_found, open_file, error_html,
  error_page, unwritten, find_route, start_modules, serve, root_router,
}

-- `q` is what the URL says after its leading slashes: a relative path without a backslash whose
-- segments name no directory above the current one, nor the current one.
pub record IsLocal (url q : Bytes) : Type 0 where
  pub slashes : ℕ
  pub below : url ≡ replicate slashes b'/' ++ q
  pub relative : is_rooted q ≡ false
  pub no_backslash : All (λ c. c ≢ b'\\') q
  pub plain : All (λ seg. (seg ≢ bytes ".") × (seg ≢ bytes "..")) (segments q)

shift : (c : ℕ) (s : Bytes) {q : Bytes} → c ≡ b'/' → IsLocal s q → IsLocal (c ∷ s) q
shift c s e local = record {
  slashes = suc (local.slashes);
  below = ap (◌∷ s) e ∙ ap (b'/' ∷◌) (local.below);
  relative = local.relative;
  no_backslash = local.no_backslash;
  plain = local.plain;
}

tail_plain :
    (c : ℕ) (s : Bytes)
    → (c == b'/') ≡ true
    → All (λ seg. (seg ≢ bytes ".") × (seg ≢ bytes "..")) (segments (c ∷ s))
    → All (λ seg. (seg ≢ bytes ".") × (seg ≢ bytes "..")) (segments s)
unfolding segments
tail_plain c s slash h =
    (subst
      (λ b.
        All (λ seg. (seg ≢ bytes ".") × (seg ≢ bytes ".."))
          (if b then [] ∷ segments s else grow c (segments s)))
      slash h).1

skip_slashes-IsLocal :
    (s : Bytes)
    → All (λ c. c ≢ b'\\') s
    → All (λ seg. (seg ≢ bytes ".") × (seg ≢ bytes "..")) (segments s)
    → IsLocal s (skip_slashes s)
unfolding skip_slashes segments
skip_slashes-IsLocal [] bare plain = record {
  slashes = 0;
  below = refl;
  relative = refl;
  no_backslash = bare;
  plain = plain;
}
skip_slashes-IsLocal (c ∷ s) (ne, bare) plain =
    if-cases (IsLocal (c ∷ s)) (c == b'/')
      (λ slash.
        shift c s ((==_iff c b'/').0 slash)
          (skip_slashes-IsLocal s bare (tail_plain c s slash plain)))
      (λ other. record {
        slashes = 0;
        below = refl;
        relative = other;
        no_backslash = (ne, bare);
        plain = plain;
      })

-- A call that opens a file opens a local one.
pub data IsSafeCall (url : Bytes) : Call → Type 0 where
  opens_local : (q : Bytes) → IsLocal url q → IsSafeCall url (opened q)
  schedules : IsSafeCall url scheduled
  pipes : IsSafeCall url piped
  writes : (fd : ℤ) (text : Bytes) → IsSafeCall url (wrote fd text)
  closes : (fd : ℤ) → IsSafeCall url (closed fd)

-- Every call behind a reply is safe.
pub record IsSafeReply (url : Bytes) (reply : Reply) : Type 0 where
  pub safe : All (IsSafeCall url) (reply.calls)

pub All-append :
    {A : Type 0} (P : A → Type 0) (xs ys : List A) → All P xs → All P ys → All P (xs ++ ys)
All-append P [] ys h k = k
All-append P (x ∷ xs) ys (p, h) k = (p, All-append P xs ys h k)

module _ (url : Bytes) (sys : System) where
  error_fd-IsSafeReply : (hs : Stream) (status : Bytes) → IsSafeReply url (error_fd sys hs status)
  unfolding error_fd error_html
  error_fd-IsSafeReply hs status =
      if-cases (IsSafeReply url) (not (is_zero (sys.pipe.0))) (λ _. record { safe = (pipes, tt) })
        (λ _.
          if-cases (IsSafeReply url)
            (unwritten (sys.write (sys.pipe.1.1) (take (length error_page + 1 - 1) error_page)))
            (λ _. record { safe = (pipes, (writes _ _, (closes _, tt))) })
            (λ _. record { safe = (pipes, (writes _ _, (closes _, tt))) }))

  or_not_found-IsSafeReply :
      (reply : Reply) → IsSafeReply url reply → IsSafeReply url (or_not_found sys reply)
  unfolding or_not_found
  or_not_found-IsSafeReply reply h =
      if-cases (IsSafeReply url) (is_negative (reply.fd))
        (λ _. record {
          safe =
              All-append (IsSafeCall url) (reply.calls) _ (h.safe)
                (IsSafeReply.safe (error_fd-IsSafeReply (reply.stream) (bytes "404")));
        })
        (λ _. h)

  start_modules-IsSafeReply :
      {p : Pcre2} (hs : Stream) (route : Route p) (stripped : Option Bytes)
      → IsSafeReply url (start_modules sys hs route stripped)
  unfolding start_modules
  start_modules-IsSafeReply hs route stripped =
      if-cases (IsSafeReply url) (not (is_zero (get_socketpair sys).0)) (λ _. record { safe = tt })
        (λ _.
          if-cases (IsSafeReply url) (is_negative (sys.evtimer_add))
            (λ _. record { safe = (schedules, tt) })
            (λ _. or_not_found-IsSafeReply _ record { safe = (schedules, tt) }))

  open_file-IsSafeReply :
      (hs : Stream) → IsLocal url (skip_slashes (hs.url)) → IsSafeReply url (open_file sys hs)
  unfolding open_file
  open_file-IsSafeReply hs local = record { safe = (opens_local _ local, tt) }

  serve-IsSafeReply :
      {p : Pcre2} (hs : Stream) (rm : RouteMatch p)
      → IsLocal url (skip_slashes (hs.url))
      → IsSafeReply url (serve sys hs rm)
  unfolding serve
  serve-IsSafeReply hs rm local = elim (Option-cases (rm.route)) [
    | inl e ↦ rw (e, serve) (or_not_found-IsSafeReply _ (open_file-IsSafeReply hs local))
    | inr (r, e) ↦ rw (e, serve) (start_modules-IsSafeReply hs r (rm.stripped_path))
  ]

-- Whatever `root_router` does for a URL that `check_path` accepts, the files it opens are local:
-- the path of each is the URL without its leading slashes, is relative, holds no backslash, and
-- has no segment "." or "..".
pub root_router-IsSafeReply :
    (p : Pcre2) (h : HashTable (Route p)) (sys : System) (loop : Bool) (routes : h.Table)
    (hs : Stream) (reply : Reply)
    → check_path (hs.url) ≡ true
    → root_router p h sys loop routes hs ≡ ok reply
    → IsSafeReply (hs.url) reply
unfolding root_router
root_router-IsSafeReply p h sys false routes hs reply checked done = absurd (ground arith)
root_router-IsSafeReply p h sys true routes hs reply checked done =
    let safe = (check_path_iff (hs.url)).0 checked in
    let local = skip_slashes-IsLocal (hs.url) (safe.no_backslash) (safe.plain) in
    let (rm, _, e) = ok_of_bind (find_route p h routes (hs.url)) (serve sys hs) reply done in
    subst (IsSafeReply (hs.url)) e (serve-IsSafeReply (hs.url) sys hs rm local)

int_size_iff : (n : ℕ) → n < 2 ^ 63 → (to_size (to_int (pos n)) ≡ n) ↔ (n < 2 ^ 31)
int_size_iff n small = elim (dec_lt (n % 2 ^ 32) (2 ^ 31)) [
  | yes low ↦ (λ h. ground arith, λ h. ground arith)
  | no high ↦ (λ h. ground arith, λ h. ground arith)
]

-- The length that the reply for a local file gives, for a file of `size` bytes that can be
-- opened, is `size` exactly if that is less than 2^31: it goes through an `int`.
pub open_file-content_length_iff :
    (sys : System) (hs : Stream) (size : ℕ)
    → sys.lseek_end (sys.open_fd (skip_slashes (hs.url))) ≡ pos size
    → size < 2 ^ 63
    → (Stream.content_length (Reply.stream (open_file sys hs)) ≡ size) ↔ (size < 2 ^ 31)
unfolding open_file
open_file-content_length_iff sys hs size e small = rw e (int_size_iff size small)
