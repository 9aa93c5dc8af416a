-- ===== src/Connections/Refines.antt =====
-- The table of connections as a finite function, over any sequence of calls of
-- main/http_stream/http_stream.c.
use mathlib.Core.Path.{subst}
use gfhttpd.Base.{
  ℕ, ◌+◌, ◌-◌, ◌≡◌, ◌≢◌, sym, Option, none, some, List, [], ◌∷◌, Run, ok, fault, abort, out_of_fuel,
  ◌>>=◌, Bytes, bytes_eq, bytes_eq_iff, length, length-append, take, if◌then◌else◌, arith,
  Bool-cases, Option-cases, inl, inr, ◌∙◌,
}
use gfhttpd.Routes.Interfaces.{HashTable}
use gfhttpd.Connections.{
  local_conn_id_len, get_connection, add_connection, delete_connection, length_connection,
}
use gfhttpd.Connections.Distinct.{IsDistinct, IsDistinct-removed, add-IsDistinct, delete-IsDistinct}

-- A call that changes the table.
pub data Op (S : Type 0) : Type 0 where
  added : S → Op S
  deleted : S → Op S

-- What a table promises: which connection an id has, and how many there are.
pub record Spec (S : Type 0) : Type 0 where
  pub lookup : Bytes → Option S
  pub count : ℕ

module _ (S : Type 0) (cid : S → Bytes) where
  -- The key of a structure.
  abbrev pub key : S → Bytes
  key hs = take local_conn_id_len (cid hs)

  abbrev pub changed_at : Bytes → Option S → (Bytes → Option S) → Bytes → Option S
  changed_at k v f k' = if bytes_eq k k' then v else f k'

  -- `none` where the call is not allowed.
  abbrev pub expect : Op S → Spec S → Option (Spec S)
  expect (added hs) s = elim (s.lookup (key hs)) [
    | none ↦ some record { lookup = changed_at (key hs) (some hs) (s.lookup); count = s.count + 1 }
    | some _ ↦ none
  ]
  expect (deleted hs) s = elim (s.lookup (key hs)) [
    | none ↦ none
    | some _ ↦ some record { lookup = changed_at (key hs) none (s.lookup); count = s.count - 1 }
  ]

  abbrev after : Option (Spec S) → (Spec S → Option (Spec S)) → Option (Spec S)
  after none f = none
  after (some s) f = f s

  -- The calls on the specification.
  abbrev pub replay : List (Op S) → Spec S → Option (Spec S)
  replay [] s = some s
  replay (op ∷ ops) s = after (expect op s) (replay ops)

  module _ (h : HashTable S) where
    abbrev pub call : Op S → h.Table → Run h.Table
    call (added hs) t = add_connection S cid h hs t
    call (deleted hs) t = delete_connection S cid h hs t

    -- The calls on the table.
    abbrev pub run_calls : List (Op S) → h.Table → Run h.Table
    run_calls [] t = ok t
    run_calls (op ∷ ops) t = call op t >>= λ t'. run_calls ops t'

    -- The specification that a table meets.
    pub record Meets (t : h.Table) (s : Spec S) : Type 0 where
      pub distinct : IsDistinct (h.items t)
      pub same_lookup : (k : Bytes) → h.find k t ≡ s.lookup k
      pub same_count : length_connection S cid h t ≡ s.count

    -- Both are defined and the table meets the specification, or both are undefined.
    abbrev pub Refines : Run h.Table → Option (Spec S) → Type 0
    Refines (ok t) (some s) = Meets t s
    Refines fault none = Unit
    Refines _ _ = ⊥

    added-Meets :
        (hs : S) (t : h.Table) (s : Spec S)
        → Meets t s
        → h.find (key hs) t ≡ none
        → Meets
            (h.add (key hs) hs t)
            record { lookup = changed_at (key hs) (some hs) (s.lookup); count = s.count + 1 }
    unfolding length_connection
    added-Meets hs t s m e = record {
      distinct = add-IsDistinct h (key hs) hs t (m.distinct) e;
      same_lookup = λ k. elim (Bool-cases (bytes_eq (key hs) k)) [
        | inl same ↦ rw same (rw (← (bytes_eq_iff (key hs) k).0 same) (h.find-add (key hs) hs t e))
        | inr other ↦
            (let ne : key hs ≢ k = ground (arith, bytes_eq_iff (key hs) k) in
              rw (other, h.find-add_ne (key hs) k hs t ne) (m.same_lookup k))
      ];
      same_count =
          rw (h.items-add (key hs) hs t)
            (omega (arith, m.same_count, length-append (h.items t) ((key hs, hs) ∷ [])));
    }

    deleted-Meets :
        (hs a : S) (t : h.Table) (s : Spec S)
        → Meets t s
        → h.find (key hs) t ≡ some a
        → Meets
            (h.delete (key hs) t)
            record { lookup = changed_at (key hs) none (s.lookup); count = s.count - 1 }
    unfolding length_connection
    deleted-Meets hs a t s m has =
        let k = key hs in
        let (xs, ys, e) = h.find-some k t a has in
        let (nx, (ny, _)) = IsDistinct-removed k a xs ys (subst IsDistinct e (m.distinct)) in
        let (gone, d) = delete-IsDistinct h k a t (m.distinct) has in
        record {
          distinct = d;
          same_lookup = λ k'. elim (Bool-cases (bytes_eq k k')) [
            | inl same ↦ rw same (rw (← (bytes_eq_iff k k').0 same) gone)
            | inr other ↦
                (let ne : k ≢ k' = ground (arith, bytes_eq_iff k k') in
                  rw (other, h.find-delete_ne k k' t ne) (m.same_lookup k'))
          ];
          same_count = rw (h.items-delete k a t xs ys e nx ny) (
              omega (
                arith,
                subst (λ l. length l ≡ s.count) e (m.same_count),
                length-append xs ((k, a) ∷ ys),
                length-append xs ys,
              ));
        }

    add_Refines :
        (hs : S) (t : h.Table) (s : Spec S)
        → Meets t s
        → Refines (call (added hs) t) (expect (added hs) s)
    unfolding add_connection get_connection
    add_Refines hs t s m = elim (Option-cases (h.find (key hs) t)) [
      | inl e ↦
          (let e' : s.lookup (key hs) ≡ none = sym (m.same_lookup (key hs)) ∙ e in
            rw (e, Refines) (rw (e', Refines) (added-Meets hs t s m e)))
      | inr (a, e) ↦
          (let e' : s.lookup (key hs) ≡ some a = sym (m.same_lookup (key hs)) ∙ e in
            rw (e, Refines) (rw (e', Refines) tt))
    ]

    delete_Refines :
        (hs : S) (t : h.Table) (s : Spec S)
        → Meets t s
        → Refines (call (deleted hs) t) (expect (deleted hs) s)
    unfolding delete_connection get_connection
    delete_Refines hs t s m = elim (Option-cases (h.find (key hs) t)) [
      | inl e ↦
          (let e' : s.lookup (key hs) ≡ none = sym (m.same_lookup (key hs)) ∙ e in
            rw (e, Refines) (rw (e', Refines) tt))
      | inr (a, e) ↦
          (let e' : s.lookup (key hs) ≡ some a = sym (m.same_lookup (key hs)) ∙ e in
            rw (e, Refines) (rw (e', Refines) (deleted-Meets hs a t s m e)))
    ]

    call-Refines :
        (op : Op S) (t : h.Table) (s : Spec S) → Meets t s → Refines (call op t) (expect op s)
    call-Refines (added hs) t s m = add_Refines hs t s m
    call-Refines (deleted hs) t s m = delete_Refines hs t s m

    after-Refines :
        (m : Run h.Table) (n : Option (Spec S)) (f : h.Table → Run h.Table)
        (g : Spec S → Option (Spec S))
        → Refines m n
        → ((t : h.Table) (s : Spec S) → Meets t s → Refines (f t) (g s))
        → Refines (m >>= f) (after n g)
    after-Refines (ok t) (some s) f g r h = h t s r
    after-Refines (ok t) none f g r h = elim r [ ]
    after-Refines fault none f g r h = tt
    after-Refines fault (some s) f g r h = elim r [ ]
    after-Refines abort n f g r h = elim r [ ]
    after-Refines out_of_fuel n f g r h = elim r [ ]

    -- From a table that meets a specification, any additions and deletions of connections are
    -- defined exactly if the specification allows them, which adds no known id and deletes no
    -- unknown one; the table at the end finds under each id what the specification finds, has as
    -- many connections, and none twice.
    pub run_calls-Refines :
        (ops : List (Op S)) (t : h.Table) (s : Spec S)
        → Meets t s
        → Refines (run_calls ops t) (replay ops s)
    run_calls-Refines [] t s m = m
    run_calls-Refines (op ∷ ops) t s m =
        after-Refines (call op t) (expect op s) (run_calls ops) (replay ops) (call-Refines op t s m)
          (run_calls-Refines ops)
