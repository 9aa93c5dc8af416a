-- ===== src/Config/Required.antt =====
-- What `conf_load` of main/config/config.c asks of a configuration.
use gfhttpd.Base.{
  ℕ, zero, suc, ◌+◌, ◌≤◌, ◌<◌, ◌≡◌, refl, true, false, List, [], ◌∷◌, Run, ok, Ensures,
  bind-Ensures, Ensures-self, Ensures-all, Ensures-map, Bytes, All, if-cases, ℤ, pos, negsuc,
  is_negative, is_zero, arith,
}
use gfhttpd.Routes.Interfaces.{HashTable, Pcre2}
use gfhttpd.Routes.{Route}
use gfhttpd.Config.{Token, tok_at}
use gfhttpd.Config.Load.{
  Jsmn, ConfigMap, config_map, is_named, is_nomem, Config, store_value, json_contains, Search,
  found, missing, broken, search_loop, searched, ChunkEnd, taken, left, entries_loop, after_search,
  on_chunk, after_chunk, chunks_loop, conf_load,
}

-- Among the `n` tokens from `i` on, one is a primitive with this text.
pub record Occurs (tokens : List Token) (json token_name : Bytes) (i n : ℕ) : Type 0 where
  pub at : ℕ
  pub tok : Token
  pub from : i ≤ at
  pub before : at < i + n
  pub there : tok_at tokens at ≡ ok tok
  pub named : is_named json tok token_name ≡ true

later :
    (tokens : List Token) (json token_name : Bytes) (i n : ℕ)
    → Occurs tokens json token_name (i + 1) n
    → Occurs tokens json token_name i (suc n)
later tokens json token_name i n o = record {
  at = o.at;
  tok = o.tok;
  from = omega (arith, o.from);
  before = omega (arith, o.before);
  there = o.there;
  named = o.named;
}

module _ (p : Pcre2) (h : HashTable (Route p)) (tokens : List Token) (json : Bytes) where
  -- A positive result says that the token has the name.
  abbrev IsHit : ConfigMap → ℕ → ℤ × Config p h → Type 0
  IsHit entry i r =
      is_negative r.0 ≡ false → is_zero r.0 ≡ false → Occurs tokens json (entry.token_name) i 1

  json_contains-IsHit :
      (i : ℕ) (entry : ConfigMap) (config : Config p h)
      → Ensures (IsHit entry i) (json_contains p h tokens json i entry config)
  unfolding json_contains
  json_contains-IsHit i entry config =
      bind-Ensures (λ tok. tok_at tokens i ≡ ok tok) (IsHit entry i) (tok_at tokens i) _
        (Ensures-self (tok_at tokens i))
        (λ tok there.
          if-cases (Ensures (IsHit entry i)) (is_named json tok (entry.token_name))
            (λ named.
              Ensures-all (IsHit entry i) (store_value p h (entry.dest) tokens json i config)
                (λ r _ _. record {
                  at = i;
                  tok = tok;
                  from = omega arith;
                  before = omega arith;
                  there = there;
                  named = named;
                }))
            (λ _. λ n z. absurd (ground arith)))

  abbrev IsFound : ConfigMap → ℕ → ℕ → Search p h → Type 0
  IsFound entry i n (found config) = Occurs tokens json (entry.token_name) i n
  IsFound entry i n (missing config) = Unit
  IsFound entry i n (broken z config) = is_negative z ≡ true

  first : (i n : ℕ) (name : Bytes) → Occurs tokens json name i 1 → Occurs tokens json name i (suc n)
  first i n name o = record {
    at = o.at;
    tok = o.tok;
    from = o.from;
    before = omega (arith, o.before);
    there = o.there;
    named = o.named;
  }

  search_more :
      (entry : ConfigMap) (i n : ℕ) (s : Search p h)
      → IsFound entry (i + 1) n s
      → IsFound entry i (suc n) s
  search_more entry i n (found config) o = later tokens json (entry.token_name) i n o
  search_more entry i n (missing config) o = tt
  search_more entry i n (broken z config) o = o

  search_loop-IsFound :
      (entry : ConfigMap) (i n : ℕ) (config : Config p h)
      → Ensures (IsFound entry i n) (search_loop p h tokens json entry i n config)
  unfolding search_loop
  search_loop-IsFound entry i zero config = tt
  search_loop-IsFound entry i (suc n) config =
      bind-Ensures (IsHit entry i) (IsFound entry i (suc n))
        (json_contains p h tokens json i entry config) _ (json_contains-IsHit i entry config)
        (λ r hit.
          if-cases (Ensures (IsFound entry i (suc n))) (is_negative r.0) (λ bad. bad)
            (λ good.
              if-cases (Ensures (IsFound entry i (suc n))) (is_zero r.0)
                (λ _.
                  Ensures-map (IsFound entry (i + 1) n) (IsFound entry i (suc n))
                    (search_loop p h tokens json entry (i + 1) n r.1)
                    (search_loop-IsFound entry (i + 1) n r.1) (search_more entry i n))
                (λ some'. first i n (entry.token_name) (hit good some'))))

  -- Every entry of a list occurs, or the result is negative.
  abbrev IsTaken : List ConfigMap → ℕ → ChunkEnd p h → Type 0
  IsTaken entries n (taken config) =
      All (λ entry. Occurs tokens json (entry.token_name) 1 n) entries
  IsTaken entries n (left z config) = is_negative z ≡ true

  more_IsTaken :
      (entry : ConfigMap) (entries : List ConfigMap) (n : ℕ)
      → Occurs tokens json (entry.token_name) 1 n
      → (c : ChunkEnd p h) → IsTaken entries n c
      → IsTaken (entry ∷ entries) n c
  more_IsTaken entry entries n o (taken config) os = (o, os)
  more_IsTaken entry entries n o (left z config) bad = bad

  entry_IsTaken :
      (entry : ConfigMap) (entries : List ConfigMap) (r : ℤ) (s : Search p h)
      → IsFound entry 1 (searched p h r) s
      → ((config : Config p h)
          → Ensures
              (IsTaken entries (searched p h r))
              (entries_loop p h entries tokens json r config))
      → Ensures
          (IsTaken (entry ∷ entries) (searched p h r))
          (after_search p h (entries_loop p h entries tokens json r) s)
  entry_IsTaken entry entries r (found config) o rest =
      Ensures-map (IsTaken entries (searched p h r)) (IsTaken (entry ∷ entries) (searched p h r))
        (entries_loop p h entries tokens json r config) (rest config)
        (more_IsTaken entry entries (searched p h r) o)
  entry_IsTaken entry entries r (missing config) o rest = refl
  entry_IsTaken entry entries r (broken z config) o rest = o

  entries_loop-IsTaken :
      (entries : List ConfigMap) (r : ℤ) (config : Config p h)
      → Ensures (IsTaken entries (searched p h r)) (entries_loop p h entries tokens json r config)
  unfolding entries_loop
  entries_loop-IsTaken [] r config = tt
  entries_loop-IsTaken (entry ∷ entries) r config =
      bind-Ensures (IsFound entry 1 (searched p h r)) (IsTaken (entry ∷ entries) (searched p h r))
        (search_loop p h tokens json entry 1 (searched p h r) config)
        (after_search p h (entries_loop p h entries tokens json r))
        (search_loop-IsFound entry 1 (searched p h r) config)
        (λ s o. entry_IsTaken entry entries r s o (entries_loop-IsTaken entries r))

module _ (p : Pcre2) (h : HashTable (Route p)) (j : Jsmn) where
  -- What a result says of a chunk, whose tokens jsmn has parsed.
  abbrev Says : List Token → Bytes → ℤ → ChunkEnd p h → Type 0
  Says tokens buf r c = IsTaken p h tokens buf config_map (searched p h r) c

  nomem_negative : (r : ℤ) → is_nomem r ≡ true → is_negative r ≡ true
  nomem_negative (pos n) e = absurd (ground arith)
  nomem_negative (negsuc n) e = refl

  chunk_Says :
      (buf : Bytes) (config : Config p h)
      → let (r, (state, tokens)) = j.parse (j.init) buf 0 256 [] in
        Ensures (λ c. Says tokens buf r c.0) (on_chunk p h j 0 (j.init) [] buf config)
  unfolding on_chunk
  chunk_Says buf config =
      let (r, (state, tokens)) = j.parse (j.init) buf 0 256 [] in
      if-cases (Ensures (λ c. Says tokens buf r c.0)) (is_nomem r) (λ no. nomem_negative r no)
        (λ _.
          bind-Ensures (Says tokens buf r) (λ c. Says tokens buf r c.0)
            (entries_loop p h config_map tokens buf r config) _
            (entries_loop-IsTaken p h tokens buf config_map r config) (λ c o. o))

  -- Every entry of the map has a token of the first chunk, unless the result is negative.
  abbrev pub HasAll : List Token → Bytes → ℕ → Type 0
  HasAll tokens buf n = All (λ entry. Occurs tokens buf (entry.token_name) 1 n) config_map

  chunk_HasAll :
      (tokens : List Token) (buf : Bytes) (n : ℕ)
      (rest : ℕ → j.Parser → List Token → Config p h → Run (ℤ × Config p h))
      (c : ChunkEnd p h × (ℕ × (j.Parser × List Token)))
      → IsTaken p h tokens buf config_map n c.0
      → Ensures (λ res. is_negative res.0 ≡ false → HasAll tokens buf n) (after_chunk p h j rest c)
  chunk_HasAll tokens buf n rest (left z config, after) bad = λ good. absurd (ground arith)
  chunk_HasAll tokens buf n rest (taken config, (tokcount, (state, tokens'))) os =
      Ensures-all (λ res. is_negative res.0 ≡ false → HasAll tokens buf n)
        (rest tokcount state tokens' config) (λ res good. os)

  -- For a configuration that is not empty, `conf_load` gives a result that is not negative only if
  -- each required name, "listen_port", "cert_file", "key_file" and "locations", is the text of a
  -- primitive token after the first of those that jsmn parses in the first chunk of the file.
  pub conf_load-HasAll :
      (buf : Bytes) (chunks : List Bytes) (config : Config p h)
      → let (r, (state, tokens)) = j.parse (j.init) buf 0 256 [] in
        Ensures
          (λ res. is_negative res.0 ≡ false → HasAll tokens buf (searched p h r))
          (conf_load p h j true (buf ∷ chunks) config)
  unfolding conf_load chunks_loop
  conf_load-HasAll buf chunks config =
      let (r, (state, tokens)) = j.parse (j.init) buf 0 256 [] in
      bind-Ensures (λ c. Says tokens buf r c.0)
        (λ res. is_negative res.0 ≡ false → HasAll tokens buf (searched p h r))
        (on_chunk p h j 0 (j.init) [] buf config) (after_chunk p h j (chunks_loop p h j chunks))
        (chunk_Says buf config)
        (λ c says. chunk_HasAll tokens buf (searched p h r) (chunks_loop p h j chunks) c says)
