-- ===== src/Http3/Quiche.antt =====
-- What main/http3/event_cb.c asks of quiche: `quiche_h3_event_for_each_header`.
use gfhttpd.Base.{ℕ, ◌≡◌, ◌≢◌, List, [], ◌∷◌, Run, ok, fault, Bytes}

-- The callback is called for each header in turn, with a state that it may change, until a call
-- gives another result than 0; that result is the one of the whole.
pub record HeaderEvents : Type 1 where
  pub for_each :
      {S : Type 0} → (Bytes → Bytes → S → Run (ℕ × S)) → List (Bytes × Bytes) → S → Run (ℕ × S)
  pub for_each-[] :
      {S : Type 0} (f : Bytes → Bytes → S → Run (ℕ × S)) (s : S) → for_each f [] s ≡ ok (0, s)
  pub for_each-goes_on :
      {S : Type 0} (f : Bytes → Bytes → S → Run (ℕ × S)) (name value : Bytes)
      (rest : List (Bytes × Bytes)) (s s' : S)
      → f name value s ≡ ok (0, s')
      → for_each f ((name, value) ∷ rest) s ≡ for_each f rest s'
  pub for_each-stops :
      {S : Type 0} (f : Bytes → Bytes → S → Run (ℕ × S)) (name value : Bytes)
      (rest : List (Bytes × Bytes)) (s s' : S) (r : ℕ)
      → f name value s ≡ ok (r, s')
      → r ≢ 0
      → for_each f ((name, value) ∷ rest) s ≡ ok (r, s')
  -- A callback that is undefined makes the whole undefined.
  pub for_each-faults :
      {S : Type 0} (f : Bytes → Bytes → S → Run (ℕ × S)) (name value : Bytes)
      (rest : List (Bytes × Bytes)) (s : S)
      → f name value s ≡ fault
      → for_each f ((name, value) ∷ rest) s ≡ fault
