-- ===== src/Http3/Looping.antt =====
-- A loop over a list of headers, and a list as their table, for the examples.
use gfhttpd.Base.{
  ◌≡◌, ◌≢◌, ◌==◌, if◌then◌else◌, refl, false, ℕ, zero, suc, List, [], ◌∷◌, Bytes, Run, ok, fault,
  ◌>>=◌, arith, none,
}
use gfhttpd.Http3.Quiche.{HeaderEvents}
use gfhttpd.Http3.{Request}

module _ {S : Type 0} (f : Bytes → Bytes → S → Run (ℕ × S)) where
  abbrev pub each : List (Bytes × Bytes) → S → Run (ℕ × S)
  each [] s = ok (0, s)
  each ((name, value) ∷ rest) s =
      f name value s >>= λ r. (let next = each rest r.1 in if r.0 == 0 then next else ok r)

  pub each-goes_on :
      (name value : Bytes) (rest : List (Bytes × Bytes)) (s s' : S)
      → f name value s ≡ ok (0, s')
      → each ((name, value) ∷ rest) s ≡ each rest s'
  each-goes_on name value rest s s' e = rw e

  pub each-stops :
      (name value : Bytes) (rest : List (Bytes × Bytes)) (s s' : S) (r : ℕ)
      → f name value s ≡ ok (r, s')
      → r ≢ 0
      → each ((name, value) ∷ rest) s ≡ ok (r, s')
  each-stops name value rest s s' zero e ne = absurd (ne refl)
  each-stops name value rest s s' (suc r) e ne =
      let z : (suc r == 0) ≡ false = ground arith in rw (e, z)

  pub each-faults :
      (name value : Bytes) (rest : List (Bytes × Bytes)) (s : S)
      → f name value s ≡ fault
      → each ((name, value) ∷ rest) s ≡ fault
  each-faults name value rest s e = rw e

abbrev pub looping : HeaderEvents
looping = record {
  for_each = each;
  for_each-[] = λ f s. refl;
  for_each-goes_on = each-goes_on;
  for_each-stops = each-stops;
  for_each-faults = each-faults;
}

abbrev pub insert : Bytes → Bytes → List (Bytes × Bytes) → List (Bytes × Bytes)
insert name value headers = (name, value) ∷ headers

abbrev pub empty_request : Request (List (Bytes × Bytes)) insert
empty_request = record { url = none; method = none; scheme = none; authority = none; headers = [] }
