-- ===== src/Routes/Listed.antt =====
-- The libraries of main/config/routes.c as small programs, for the examples: a table as a list,
-- and a matcher of a prefix with what follows it as its one group.
use gfhttpd.Base.{
  ◌≡◌, ◌≢◌, refl, ap, Option, none, some, List, [], ◌∷◌, false, ◌++◌, Bytes, bytes_eq, bytes_eq_iff,
  starts_with, All, length, if◌then◌else◌, arith, inl, inr, Bool-cases, map,
}
use mathlib.Core.Option.{some_inj}
use gfhttpd.Routes.Interfaces.{HashTable, Pcre2, no_match, matched}

module _ {A : Type 0} where
  abbrev pub find : Bytes → List (Bytes × A) → Option A
  find k [] = none
  find k ((k', a) ∷ t) = let rest = find k t in if bytes_eq k' k then some a else rest

  pub find-some :
      (k : Bytes) (t : List (Bytes × A)) (a : A)
      → find k t ≡ some a
      → (before : List (Bytes × A)) × (after : List (Bytes × A)) × (t ≡ before ++ (k, a) ∷ after)
  find-some k [] a h = absurd (ground arith)
  find-some k ((k', b) ∷ t) a h = elim (Bool-cases (bytes_eq k' k)) [
    | inl same ↦ ([], t, ground (arith, bytes_eq_iff k' k))
    | inr other ↦
        (let (before, after, e) = find-some k t a (ground arith) in
          ((k', b) ∷ before, after, ap ((k', b) ∷◌) e))
  ]

  pub find-none : (k : Bytes) (t : List (Bytes × A)) → find k t ≡ none → All (λ e. e.0 ≢ k) t
  find-none k [] h = tt
  find-none k ((k', b) ∷ t) h = elim (Bool-cases (bytes_eq k' k)) [
    | inl same ↦ absurd (ground arith)
    | inr other ↦ (ground (arith, bytes_eq_iff k' k), find-none k t (ground arith))
  ]

module _ {A : Type 0} where
  abbrev pub modify : (A → A) → Bytes → List (Bytes × A) → List (Bytes × A)
  modify f k [] = []
  modify f k ((k', a) ∷ t) =
      let rest = modify f k t in if bytes_eq k' k then (k', f a) ∷ t else (k', a) ∷ rest

  pub find-add :
      (k : Bytes) (a : A) (t : List (Bytes × A))
      → find k t ≡ none
      → find k (t ++ (k, a) ∷ []) ≡ some a
  find-add k a [] h = ground (arith, bytes_eq_iff k k)
  find-add k a ((k', b) ∷ t) h = elim (Bool-cases (bytes_eq k' k)) [
    | inl same ↦ absurd (ground arith)
    | inr other ↦ rw other (find-add k a t (ground arith))
  ]

  pub find-add_ne :
      (k k' : Bytes) (a : A) (t : List (Bytes × A))
      → k ≢ k'
      → find k' (t ++ (k, a) ∷ []) ≡ find k' t
  find-add_ne k k' a [] ne = ground (arith, bytes_eq_iff k k')
  find-add_ne k k' a ((k'', b) ∷ t) ne = rw (find-add_ne k k' a t ne)

  pub find-modify :
      (f : A → A) (k : Bytes) (t : List (Bytes × A)) (a : A)
      → find k t ≡ some a
      → find k (modify f k t) ≡ some (f a)
  find-modify f k [] a h = absurd (ground arith)
  find-modify f k ((k', b) ∷ t) a h = elim (Bool-cases (bytes_eq k' k)) [
    | inl same ↦ rw same (rw same (ap some (ap f (some_inj.0 (rw same at h)))))
    | inr other ↦ rw other (rw other (find-modify f k t a (ground arith)))
  ]

  pub find-modify_ne :
      (f : A → A) (k k' : Bytes) (t : List (Bytes × A))
      → k ≢ k'
      → find k' (modify f k t) ≡ find k' t
  find-modify_ne f k k' [] ne = refl
  find-modify_ne f k k' ((k'', b) ∷ t) ne = elim (Bool-cases (bytes_eq k'' k)) [
    | inl same ↦
        (let other : bytes_eq k'' k' ≡ false =
            ground (arith, bytes_eq_iff k'' k, bytes_eq_iff k'' k') in
          rw (same, other))
    | inr other ↦ rw (other, find-modify_ne f k k' t ne)
  ]

  pub length-modify :
      (f : A → A) (k : Bytes) (t : List (Bytes × A)) → length (modify f k t) ≡ length t
  length-modify f k [] = refl
  length-modify f k ((k', b) ∷ t) = elim (Bool-cases (bytes_eq k' k)) [
    | inl same ↦ rw same
    | inr other ↦ rw (other, length-modify f k t)
  ]

  pub keys-modify :
      (f : A → A) (k : Bytes) (t : List (Bytes × A))
      → map (λ e. e.0) (modify f k t) ≡ map (λ e. e.0) t
  keys-modify f k [] = refl
  keys-modify f k ((k', b) ∷ t) = elim (Bool-cases (bytes_eq k' k)) [
    | inl same ↦ rw same
    | inr other ↦ rw (other, keys-modify f k t)
  ]

module _ {A : Type 0} where
  abbrev pub delete : Bytes → List (Bytes × A) → List (Bytes × A)
  delete k [] = []
  delete k ((k', a) ∷ t) = let rest = delete k t in if bytes_eq k' k then t else (k', a) ∷ rest

  delete_first :
      (k : Bytes) (a : A) (before after : List (Bytes × A))
      → All (λ e. e.0 ≢ k) before
      → delete k (before ++ (k, a) ∷ after) ≡ before ++ after
  delete_first k a [] after h = ground (arith, bytes_eq_iff k k)
  delete_first k a ((k', b) ∷ before) after (ne, h) =
      let other : bytes_eq k' k ≡ false = ground (arith, bytes_eq_iff k' k) in
      rw (other, delete_first k a before after h)

  pub items-delete :
      (k : Bytes) (a : A) (t before after : List (Bytes × A))
      → t ≡ before ++ (k, a) ∷ after
      → All (λ e. e.0 ≢ k) before
      → All (λ e. e.0 ≢ k) after
      → delete k t ≡ before ++ after
  items-delete k a t before after e h h' = rw e (delete_first k a before after h)

  pub find-delete_ne :
      (k k' : Bytes) (t : List (Bytes × A)) → k ≢ k' → find k' (delete k t) ≡ find k' t
  find-delete_ne k k' [] ne = refl
  find-delete_ne k k' ((k'', b) ∷ t) ne = elim (Bool-cases (bytes_eq k'' k)) [
    | inl same ↦
        (let other : bytes_eq k'' k' ≡ false =
            ground (arith, bytes_eq_iff k'' k, bytes_eq_iff k'' k') in
          rw (same, other))
    | inr other ↦ rw (other, find-delete_ne k k' t ne)
  ]

abbrev pub listed : {A : Type 0} → HashTable A
listed {A} = record {
  Table = List (Bytes × A);
  empty = [];
  items = λ t. t;
  add = λ k a t. t ++ (k, a) ∷ [];
  find = find;
  modify = modify;
  delete = delete;
  items-empty = refl;
  items-add = λ k a t. refl;
  find-some = find-some;
  find-none = find-none;
  find-add = find-add;
  find-add_ne = find-add_ne;
  find-modify = find-modify;
  find-modify_ne = find-modify_ne;
  length-modify = length-modify;
  keys-modify = keys-modify;
  items-delete = items-delete;
  find-delete_ne = find-delete_ne;
}

abbrev pub prefixes : Pcre2
prefixes = record {
  Code = Bytes;
  compile = λ pattern. some pattern;
  exec = λ code s.
      if starts_with s code
      then matched ((0, length s) ∷ (length code, length s) ∷ [])
      else no_match;
}
