-- ===== src/Headers/Lookup.antt =====
-- What is found after an insertion.
use gfhttpd.Base.{
  ℕ, ◌+◌, ◌≡◌, ◌≢◌, refl, none, some, [], ◌∷◌, Bytes, length, length-append, take_of_ge,
  Option-cases, inl, inr, ◌⊎◌, arith,
}
use gfhttpd.Routes.Interfaces.{HashTable}
use gfhttpd.Headers.{HttpHeader, get_header, insert_header, length_header}

module _ (h : HashTable HttpHeader) where
  -- What `insert_header` does to a table, with a name of `n_name` bytes.
  pub record IsInserted (name value : Bytes) (n_value : ℕ) (before after : h.Table) : Type 0 where
    pub header : HttpHeader
    pub found : get_header h name after ≡ some header
    pub same_value : header.value ≡ value
    pub same_n_value : header.n_value ≡ n_value
    pub others :
        (other : Bytes) → name ≢ other → get_header h other after ≡ get_header h other before
    pub count :
        ((get_header h name before ≡ none) × (length_header h after ≡ length_header h before + 1))
        ⊎ ((old : HttpHeader) × (get_header h name before ≡ some old)
            × (length_header h after ≡ length_header h before))

  length-add :
      (k : Bytes) (a : HttpHeader) (t : h.Table)
      → length (h.items (h.add k a t)) ≡ length (h.items t) + 1
  length-add k a t = rw (h.items-add k a t, length-append (h.items t) ((k, a) ∷ []))

  insert_new :
      (name value : Bytes) (n_value : ℕ) (t : h.Table)
      → h.find name t ≡ none
      → insert_header h name (length name) value n_value t
        ≡ h.add name
            record { name = name; n_name = length name; value = value; n_value = n_value }
            t
  unfolding insert_header
  insert_new name value n_value t e =
      let all = take_of_ge (length name) name (omega arith) in rw (e, insert_header, all)

  insert_old :
      (name value : Bytes) (n_value : ℕ) (t : h.Table) (old : HttpHeader)
      → h.find name t ≡ some old
      → insert_header h name (length name) value n_value t
        ≡ h.modify (λ header. record header { value = value; n_value = n_value }) name t
  unfolding insert_header
  insert_old name value n_value t old e = rw (e, insert_header)

  -- After an insertion `get_header` finds the value under the name, and under any other name what
  -- it found before; the table has one header more if the name is new, else as many as before.
  pub insert_header-IsInserted :
      (name value : Bytes) (n_value : ℕ) (t : h.Table)
      → IsInserted name value n_value t (insert_header h name (length name) value n_value t)
  unfolding get_header length_header
  insert_header-IsInserted name value n_value t = elim (Option-cases (h.find name t)) [
    | inl missing ↦
        (let header : HttpHeader = record {
          name = name;
          n_name = length name;
          value = value;
          n_value = n_value;
        } in
          rw (insert_new name value n_value t missing) record {
            header = header;
            found = h.find-add name header t missing;
            same_value = refl;
            same_n_value = refl;
            others = λ other ne. h.find-add_ne name other header t ne;
            count = inl (missing, length-add name header t);
          })
    | inr (old, has) ↦ rw (insert_old name value n_value t old has) record {
      header = record old { value = value; n_value = n_value };
      found = h.find-modify _ name t old has;
      same_value = refl;
      same_n_value = refl;
      others = λ other ne. h.find-modify_ne _ name other t ne;
      count = inr (old, has, h.length-modify _ name t);
    }
  ]
