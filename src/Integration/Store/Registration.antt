-- ===== src/Integration/Store/Registration.antt =====
-- What `get` finds after `put`.
use p2psc.Prelude.{
  ◌≡◌, refl, sym, ap, ◌∙◌, Bool-cases, inl, inr, false, Option, none, some, Bytes, bytes_eq,
  bytes_eq→eq, bytes_eq_refl, if◌then◌else◌,
}
use p2psc.Integration.Store.{PeerIdentifier, Store, inserted, get, put}

-- What `id` stands for once `p` has been put under `key`: the first identifier of a key is kept.
kept : Option PeerIdentifier → PeerIdentifier → Option PeerIdentifier
kept none p = some p
kept (some q) p = some q

unfoldable pub after_put : Bytes → Bytes → PeerIdentifier → Store → Option PeerIdentifier
unfolding kept
after_put id key p store = if bytes_eq id key then kept (get key store) p else get id store

get-inserted :
    (id key : Bytes) (p : PeerIdentifier) (store : Store) (o : Option PeerIdentifier)
    → get key store ≡ o
    → get id (inserted o key p store) ≡ (if bytes_eq id key then kept o p else get id store)
unfolding get kept
get-inserted id key p store none missing = refl
get-inserted id key p store (some q) known = elim (Bool-cases (bytes_eq id key)) [
  | inl same ↦ rw same (ap (λ id. get id store) (bytes_eq→eq id key same) ∙ known)
  | inr other ↦ rw other refl
]

-- `put` gives a new key its identifier, leaves a key that is there with its first identifier, and
-- changes nothing for the other keys.
pub get-put :
    (id key : Bytes) (p : PeerIdentifier) (store : Store)
    → get id (put key p store) ≡ after_put id key p store
unfolding put after_put
get-put id key p store = get-inserted id key p store _ refl

-- A key that has been put keeps its identifier.
pub put-keeps :
    (id key : Bytes) (p q : PeerIdentifier) (store : Store)
    → get id store ≡ some q
    → get id (put key p store) ≡ some q
unfolding after_put kept
put-keeps id key p q store known = elim (Bool-cases (bytes_eq id key)) [
  | inl same ↦
      let eq : id ≡ key = bytes_eq→eq id key same in
      let there : get key store ≡ some q = ap (λ id. get id store) (sym eq) ∙ known in
      get-put id key p store ∙ rw same (ap (λ o. kept o p) there)
  | inr other ↦ get-put id key p store ∙ rw other known
]

-- A new key stands for what has been put.
pub put-new :
    (key : Bytes) (p : PeerIdentifier) (store : Store)
    → get key store ≡ none
    → get key (put key p store) ≡ some p
unfolding after_put kept
put-new key p store missing =
    get-put key key p store ∙ rw (bytes_eq_refl key) (ap (λ o. kept o p) missing)

-- A key that differs is not affected.
pub put-other :
    (id key : Bytes) (p : PeerIdentifier) (store : Store)
    → bytes_eq id key ≡ false
    → get id (put key p store) ≡ get id store
unfolding after_put
put-other id key p store other = get-put id key p store ∙ rw other refl
