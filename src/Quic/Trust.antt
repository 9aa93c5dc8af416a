-- ===== src/Quic/Trust.antt =====
-- Which peers the connections of main/http3/event_cb.c have.
use gfhttpd.Base.{
  ◌≡◌, ◌≢◌, sym, ◌∙◌, none, some, Bytes, bytes_eq, bytes_eq_iff, take, arith, Bool-cases,
  Option-cases, inl, inr,
}
use mathlib.Core.Path.{subst}
use mathlib.Core.Option.{some_inj}
use gfhttpd.Routes.Interfaces.{HashTable}
use gfhttpd.Connections.{local_conn_id_len}
use gfhttpd.Connections.Distinct.{
  IsDistinct, find-modify_none, modify-IsDistinct, add-IsDistinct, delete-IsDistinct,
}
use gfhttpd.Quic.Api.{Transport}
use gfhttpd.Quic.{Connection}
use gfhttpd.Quic.Accept.{Server}
use gfhttpd.Quic.Events.{store_back}

module _ (t : Transport) (H : Type 0) (insert_header : Bytes → Bytes → H → H) (empty : H)
    (h : HashTable (Connection t H insert_header)) (V : Bytes → Type 0) where
  abbrev Hs : Type 0
  Hs = Connection t H insert_header

  abbrev Srv : Type 0
  Srv = Server t H insert_header empty h

  -- No id stands for two connections, and `V` holds of the address of each connection's peer.
  pub record IsTrusted (head : h.Table) : Type 0 where
    pub distinct : IsDistinct (h.items head)
    pub peers : (k : Bytes) (hs : Hs) → h.find k head ≡ some hs → V (hs.peer_addr)

  modify-IsTrusted :
      (hs : Hs) (k : Bytes) (head : h.Table)
      → IsTrusted head
      → V (hs.peer_addr)
      → IsTrusted (h.modify (λ _. hs) k head)
  modify-IsTrusted hs k head i v = record {
    distinct = modify-IsDistinct h (λ _. hs) k head (i.distinct);
    peers = λ k' c e. elim (Bool-cases (bytes_eq k k')) [
      | inl same ↦
          (let e' =
              subst (λ x. h.find x (h.modify (λ _. hs) k head) ≡ some c)
                (sym ((bytes_eq_iff k k').0 same)) e in
            elim (Option-cases (h.find k head)) [
              | inl unknown ↦
                  absurd (ground (arith, find-modify_none h (λ _. hs) k head unknown, e'))
              | inr (a, known) ↦
                  subst (λ x. V (x.peer_addr))
                    (some_inj.0 (sym (h.find-modify (λ _. hs) k head a known) ∙ e')) v
            ])
      | inr other ↦
          (let ne : k ≢ k' = ground (arith, bytes_eq_iff k k') in
            i.peers k' c (sym (h.find-modify_ne (λ _. hs) k k' head ne) ∙ e))
    ];
  }

  pub add-IsTrusted :
      (hs : Hs) (k : Bytes) (head : h.Table)
      → IsTrusted head
      → h.find k head ≡ none
      → V (hs.peer_addr)
      → IsTrusted (h.add k hs head)
  add-IsTrusted hs k head i unknown v = record {
    distinct = add-IsDistinct h k hs head (i.distinct) unknown;
    peers = λ k' c e. elim (Bool-cases (bytes_eq k k')) [
      | inl same ↦
          (let e' =
              subst (λ x. h.find x (h.add k hs head) ≡ some c) (sym ((bytes_eq_iff k k').0 same))
                e in
            subst (λ x. V (x.peer_addr)) (some_inj.0 (sym (h.find-add k hs head unknown) ∙ e')) v)
      | inr other ↦
          (let ne : k ≢ k' = ground (arith, bytes_eq_iff k k') in
            i.peers k' c (sym (h.find-add_ne k k' hs head ne) ∙ e))
    ];
  }

  pub delete-IsTrusted :
      (k : Bytes) (a : Hs) (head : h.Table)
      → IsTrusted head
      → h.find k head ≡ some a
      → IsTrusted (h.delete k head)
  delete-IsTrusted k a head i known =
      let (gone, d) = delete-IsDistinct h k a head (i.distinct) known in
      record {
        distinct = d;
        peers = λ k' c e. elim (Bool-cases (bytes_eq k k')) [
          | inl same ↦
              (let e' =
                  subst (λ x. h.find x (h.delete k head) ≡ some c)
                    (sym ((bytes_eq_iff k k').0 same)) e in
                absurd (ground (arith, gone, e')))
          | inr other ↦
              (let ne : k ≢ k' = ground (arith, bytes_eq_iff k k') in
                i.peers k' c (sym (h.find-delete_ne k k' head ne) ∙ e))
        ];
      }

  abbrev pub Trusts : Srv → Type 0
  Trusts server = IsTrusted (server.head)

  pub store_back-IsTrusted :
      (hs : Hs) (server : Srv)
      → Trusts server
      → V (hs.peer_addr)
      → Trusts (store_back t H insert_header empty h hs server)
  store_back-IsTrusted hs server i v =
      modify-IsTrusted hs (take local_conn_id_len (hs.cid)) (server.head) i v
