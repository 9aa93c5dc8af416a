-- ===== src/Routes/Interfaces.antt =====
-- What main/config/routes.c and main/http_stream/headers.c ask of their libraries: the tables of
-- uthash and the matcher of PCRE2.
use gfhttpd.Base.{ℕ, ◌≡◌, ◌≢◌, Option, none, some, List, [], ◌∷◌, ◌++◌, Bytes, All, ℤ, length, map}

-- A uthash table of structures `A` whose keys are byte strings. `items` lists them as
-- HASH_ITER visits them, which is the order of insertion.
pub record HashTable (A : Type 0) : Type 1 where
  pub Table : Type 0
  pub empty : Table
  pub items : Table → List (Bytes × A)
  pub add : Bytes → A → Table → Table
  pub find : Bytes → Table → Option A
  -- A change of the structure that HASH_FIND gives, through the pointer to it.
  pub modify : (A → A) → Bytes → Table → Table
  -- HASH_DEL of the structure that HASH_FIND gives.
  pub delete : Bytes → Table → Table
  pub items-empty : items empty ≡ []
  pub items-add : (k : Bytes) (a : A) (t : Table) → items (add k a t) ≡ items t ++ (k, a) ∷ []
  pub find-some :
      (k : Bytes) (t : Table) (a : A)
      → find k t ≡ some a
      → (before : List (Bytes × A)) × (after : List (Bytes × A)) × (items t
          ≡ before ++ (k, a) ∷ after)
  pub find-none : (k : Bytes) (t : Table) → find k t ≡ none → All (λ e. e.0 ≢ k) (items t)
  pub find-add : (k : Bytes) (a : A) (t : Table) → find k t ≡ none → find k (add k a t) ≡ some a
  pub find-add_ne : (k k' : Bytes) (a : A) (t : Table) → k ≢ k' → find k' (add k a t) ≡ find k' t
  pub find-modify :
      (f : A → A) (k : Bytes) (t : Table) (a : A)
      → find k t ≡ some a
      → find k (modify f k t) ≡ some (f a)
  pub find-modify_ne :
      (f : A → A) (k k' : Bytes) (t : Table) → k ≢ k' → find k' (modify f k t) ≡ find k' t
  pub length-modify :
      (f : A → A) (k : Bytes) (t : Table) → length (items (modify f k t)) ≡ length (items t)
  pub keys-modify :
      (f : A → A) (k : Bytes) (t : Table)
      → map (λ e. e.0) (items (modify f k t)) ≡ map (λ e. e.0) (items t)
  pub items-delete :
      (k : Bytes) (a : A) (t : Table) (before after : List (Bytes × A))
      → items t ≡ before ++ (k, a) ∷ after
      → All (λ e. e.0 ≢ k) before
      → All (λ e. e.0 ≢ k) after
      → items (delete k t) ≡ before ++ after
  pub find-delete_ne : (k k' : Bytes) (t : Table) → k ≢ k' → find k' (delete k t) ≡ find k' t

-- What `pcre2_match` says: PCRE2_ERROR_NOMATCH, another negative code, or the ovector's pairs
-- up to the highest group that took part. No pair stands for the result 0, an ovector that is
-- too small.
pub data MatchResult : Type 0 where
  no_match : MatchResult
  failed : ℤ → MatchResult
  matched : List (ℕ × ℕ) → MatchResult

pub record Pcre2 : Type 1 where
  pub Code : Type 0
  pub compile : Bytes → Option Code
  pub exec : Code → Bytes → MatchResult
