-- ===== src/Connections/Distinct.antt =====
-- Tables of main/http_stream/http_stream.c hold no key twice: what that says of lists of items.
use mathlib.Core.Path.{subst}
use gfhttpd.Base.{
  ◌≡◌, ◌≢◌, refl, sym, ap, none, some, List, [], ◌∷◌, ◌++◌, Bytes, All, arith, inl, inr, ◌∙◌,
  Option-cases, map, append_assoc,
}
use gfhttpd.Routes.Interfaces.{HashTable}
use gfhttpd.Connections.{delete_each, delete_connections_all}

cons_head : {a b : Bytes} {s t : List Bytes} → a ∷ s ≡ b ∷ t → a ≡ b
cons_head e = ground arith

cons_tail : {a b : Bytes} {s t : List Bytes} → a ∷ s ≡ b ∷ t → s ≡ t
cons_tail e = ground arith

module _ {A : Type 0} where
  abbrev pub IsDistinct : List (Bytes × A) → Type 0
  IsDistinct [] = Unit
  IsDistinct (e ∷ l) = All (λ e'. e'.0 ≢ e.0) l × IsDistinct l

  All-split :
      (k : Bytes) (xs ys : List (Bytes × A))
      → All (λ e. e.0 ≢ k) (xs ++ ys)
      → All (λ e. e.0 ≢ k) xs × All (λ e. e.0 ≢ k) ys
  All-split k [] ys h = (tt, h)
  All-split k (x ∷ xs) ys (p, h) = let (hx, hy) = All-split k xs ys h in ((p, hx), hy)

  pub All-joined :
      (k : Bytes) (xs ys : List (Bytes × A))
      → All (λ e. e.0 ≢ k) xs
      → All (λ e. e.0 ≢ k) ys
      → All (λ e. e.0 ≢ k) (xs ++ ys)
  All-joined k [] ys hx hy = hy
  All-joined k (x ∷ xs) ys (p, hx) hy = (p, All-joined k xs ys hx hy)

  pub not-All :
      (k : Bytes) (a : A) (xs ys : List (Bytes × A)) → ¬ All (λ e. e.0 ≢ k) (xs ++ (k, a) ∷ ys)
  not-All k a xs ys h = (All-split k xs ((k, a) ∷ ys) h).1.0 refl

  -- A new key at the end.
  pub IsDistinct-added :
      (k : Bytes) (a : A) (l : List (Bytes × A))
      → IsDistinct l
      → All (λ e. e.0 ≢ k) l
      → IsDistinct (l ++ (k, a) ∷ [])
  IsDistinct-added k a [] d h = (tt, tt)
  IsDistinct-added k a (e ∷ l) (n, d) (p, h) =
      (All-joined (e.0) l ((k, a) ∷ []) n (λ q. p (sym q), tt), IsDistinct-added k a l d h)

  -- What a key in the middle says of the rest.
  pub IsDistinct-removed :
      (k : Bytes) (a : A) (xs ys : List (Bytes × A))
      → IsDistinct (xs ++ (k, a) ∷ ys)
      → All (λ e. e.0 ≢ k) xs × (All (λ e. e.0 ≢ k) ys × IsDistinct (xs ++ ys))
  IsDistinct-removed k a [] ys (n, d) = (tt, (n, d))
  IsDistinct-removed k a (x ∷ xs) ys (n, d) =
      let (hx, (hy, d')) = IsDistinct-removed k a xs ys d in
      let (nx, (nk, ny)) = All-split (x.0) xs ((k, a) ∷ ys) n in
      ((λ q. nk (sym q), hx), (hy, (All-joined (x.0) xs ys nx ny, d')))

-- What a list of items says of keys, only its keys say.
module _ {A : Type 0} where
  abbrev keys : List (Bytes × A) → List Bytes
  keys l = map (λ e. e.0) l

  All-keys :
      (k : Bytes) (l l' : List (Bytes × A))
      → keys l' ≡ keys l
      → All (λ e. e.0 ≢ k) l
      → All (λ e. e.0 ≢ k) l'
  All-keys k l [] q h = tt
  All-keys k [] (e' ∷ l') q h = absurd (ground arith)
  All-keys k (e ∷ l) (e' ∷ l') q (n, h) =
      (λ z. n (sym (cons_head q) ∙ z), All-keys k l l' (cons_tail q) h)

  IsDistinct-keys : (l l' : List (Bytes × A)) → keys l' ≡ keys l → IsDistinct l → IsDistinct l'
  IsDistinct-keys l [] q d = tt
  IsDistinct-keys [] (e' ∷ l') q d = absurd (ground arith)
  IsDistinct-keys (e ∷ l) (e' ∷ l') q (n, d) = (
    All-keys (e'.0) l l' (cons_tail q) (subst (λ k. All (λ x. x.0 ≢ k) l) (sym (cons_head q)) n),
    IsDistinct-keys l l' (cons_tail q) d,
  )

module _ {A : Type 0} where
  item_head : {e e' : Bytes × A} {s t : List (Bytes × A)} → e ∷ s ≡ e' ∷ t → e ≡ e'
  item_head q = ground arith

  item_tail : {e e' : Bytes × A} {s t : List (Bytes × A)} → e ∷ s ≡ e' ∷ t → s ≡ t
  item_tail q = ground arith

  unique :
      (k : Bytes) (a b : A) (xs ys xs' ys' : List (Bytes × A))
      → xs ++ (k, a) ∷ ys ≡ xs' ++ (k, b) ∷ ys'
      → IsDistinct (xs ++ (k, a) ∷ ys)
      → a ≡ b
  unique k a b [] ys [] ys' e d = ap (λ x. x.1) (item_head e)
  unique k a b [] ys (x ∷ xs') ys' e (n, d) =
      absurd (not-All k b xs' ys' (subst (λ l. All (λ x. x.0 ≢ k) l) (item_tail e) n))
  unique k a b (x ∷ xs) ys [] ys' e (n, d) = absurd (
      not-All k a xs ys
        (subst (λ q. All (λ x. x.0 ≢ q) (xs ++ (k, a) ∷ ys)) (ap (λ x. x.0) (item_head e)) n))
  unique k a b (x ∷ xs) ys (x' ∷ xs') ys' e (n, d) = unique k a b xs ys xs' ys' (item_tail e) d

-- Tables with distinct keys.
module _ {A : Type 0} (h : HashTable A) where
  -- A key that no item has is not found.
  pub find_of_All : (k : Bytes) (t : h.Table) → All (λ e. e.0 ≢ k) (h.items t) → h.find k t ≡ none
  find_of_All k t absent = elim (Option-cases (h.find k t)) [
    | inl unknown ↦ unknown
    | inr (b, has) ↦
        (let (xs, ys, e) = h.find-some k t b has in
          absurd (not-All k b xs ys (subst (λ l. All (λ x. x.0 ≢ k) l) e absent)))
  ]

  -- An item is what its key finds.
  pub find_of_item :
      (k : Bytes) (a : A) (t : h.Table) (xs ys : List (Bytes × A))
      → h.items t ≡ xs ++ (k, a) ∷ ys
      → IsDistinct (h.items t)
      → h.find k t ≡ some a
  find_of_item k a t xs ys e d = elim (Option-cases (h.find k t)) [
    | inl unknown ↦
        absurd (not-All k a xs ys (subst (λ l. All (λ x. x.0 ≢ k) l) e (h.find-none k t unknown)))
    | inr (b, has) ↦
        (let (xs', ys', e') = h.find-some k t b has in
          has ∙ ap some (sym (unique k a b xs ys xs' ys' (sym e ∙ e') (subst IsDistinct e d))))
  ]

  -- What holds of all that is found holds of all items.
  pub All_of_find :
      (P : A → Type 0) (t : h.Table) (xs ys : List (Bytes × A))
      → h.items t ≡ xs ++ ys
      → IsDistinct (h.items t)
      → ((k : Bytes) (a : A) → h.find k t ≡ some a → P a)
      → All (λ x. P (x.1)) ys
  All_of_find P t xs [] e d f = tt
  All_of_find P t xs ((k, a) ∷ ys) e d f = (
    f k a (find_of_item k a t xs ys e d),
    All_of_find P t (xs ++ (k, a) ∷ []) ys (e ∙ sym (append_assoc xs ((k, a) ∷ []) ys)) d f,
  )

  pub find-modify_none :
      (f : A → A) (k : Bytes) (t : h.Table) → h.find k t ≡ none → h.find k (h.modify f k t) ≡ none
  find-modify_none f k t e =
      find_of_All k (h.modify f k t) (
        All-keys k (h.items t) (h.items (h.modify f k t)) (h.keys-modify f k t) (h.find-none k t e))

  pub modify-IsDistinct :
      (f : A → A) (k : Bytes) (t : h.Table)
      → IsDistinct (h.items t)
      → IsDistinct (h.items (h.modify f k t))
  modify-IsDistinct f k t d =
      IsDistinct-keys (h.items t) (h.items (h.modify f k t)) (h.keys-modify f k t) d

  pub add-IsDistinct :
      (k : Bytes) (a : A) (t : h.Table)
      → IsDistinct (h.items t)
      → h.find k t ≡ none
      → IsDistinct (h.items (h.add k a t))
  add-IsDistinct k a t d e =
      rw (h.items-add k a t) (IsDistinct-added k a (h.items t) d (h.find-none k t e))

  -- A found key is deleted once and for all, and the other keys stay distinct.
  pub delete-IsDistinct :
      (k : Bytes) (a : A) (t : h.Table)
      → IsDistinct (h.items t)
      → h.find k t ≡ some a
      → (h.find k (h.delete k t) ≡ none) × IsDistinct (h.items (h.delete k t))
  delete-IsDistinct k a t d has =
      let (xs, ys, e) = h.find-some k t a has in
      let (nx, (ny, d')) = IsDistinct-removed k a xs ys (subst IsDistinct e d) in
      let e' = h.items-delete k a t xs ys e nx ny in
      (
        find_of_All k (h.delete k t)
            (subst (λ l. All (λ x. x.0 ≢ k) l) (sym e') (All-joined k xs ys nx ny)),
        rw e' d',
      )

-- Every connection is deleted, once each.
module _ (S : Type 0) (cid : S → Bytes) (h : HashTable S) where
  delete_each_empties :
      (l : List (Bytes × S)) (t : h.Table)
      → h.items t ≡ l
      → IsDistinct l
      → h.items (delete_each S cid h l t) ≡ []
  unfolding delete_each
  delete_each_empties [] t e d = e
  delete_each_empties ((id, hs) ∷ rest) t e (n, d) =
      delete_each_empties rest (h.delete id t) (h.items-delete id hs t [] rest e tt n) d

  pub items-delete_connections_all :
      (t : h.Table) → IsDistinct (h.items t) → h.items (delete_connections_all S cid h t) ≡ []
  unfolding delete_connections_all
  items-delete_connections_all t d = delete_each_empties (h.items t) t refl d
