-- ===== src/Integration/Store/Entries.antt =====
-- What holds of every entry of the store.
use p2psc.Prelude.{
  ◌≡◌, sym, subst, Bool-cases, inl, inr, Option, none, some, [], ◌∷◌, All, Bytes, bytes_eq,
  bytes_eq→eq, arith,
}
use p2psc.Integration.Store.{PeerIdentifier, Store, inserted, get, put}

module _ (P : Bytes → PeerIdentifier → Type 0) where
  abbrev pub Entries : Store → Type 0
  Entries = All (λ entry. P entry.0 entry.1)

  pub Entries-get :
      (key : Bytes) (p : PeerIdentifier) (store : Store)
      → Entries store
      → get key store ≡ some p
      → P key p
  unfolding get
  Entries-get key p [] h e = cc
  Entries-get key p ((k, q) ∷ store) (hq, h) e = elim (Bool-cases (bytes_eq key k)) [
    | inl same ↦
        let eq : q ≡ p = ground (arith, same, e) in
        subst (λ x. P key x) eq (subst (λ x. P x q) (sym (bytes_eq→eq key k same)) hq)
    | inr other ↦ Entries-get key p store h (ground (arith, other, e))
  ]

  Entries-inserted :
      (o : Option PeerIdentifier) (key : Bytes) (p : PeerIdentifier) (store : Store)
      → P key p
      → Entries store
      → Entries (inserted o key p store)
  Entries-inserted none key p store hp h = (hp, h)
  Entries-inserted (some q) key p store hp h = h

  pub Entries-put :
      (key : Bytes) (p : PeerIdentifier) (store : Store)
      → P key p
      → Entries store
      → Entries (put key p store)
  unfolding put
  Entries-put key p store hp h = Entries-inserted (get key store) key p store hp h
