-- ===== src/Integration/FakeMediator/Sets.antt =====
-- Sets of addresses, and lists of sessions of which one goes on.
use p2psc.Prelude.{
  ℕ, zero, suc, ◌≡◌, refl, sym, ap, ◌∙◌, subst, true, false, Bool-cases, inl, inr, ◌⊎◌, some, List,
  [], ◌∷◌, ◌++◌, get_elem?, set, All, arith, bytes_eq→eq, bytes_eq_refl,
}
use p2psc.Net.Objects.{SocketAddress, address_eq}
use p2psc.Integration.Handle.{contains, insert, erase}
use p2psc.Integration.FakeMediator.System.{Session}
use p2psc.Integration.FakeMediator.Effects.{is_disconnected}

address_eq→eq : (x y : SocketAddress) → address_eq x y ≡ true → x ≡ y
unfolding address_eq
address_eq→eq x y h =
    let ports : x.port ≡ y.port = ground arith in
    let ips : x.ip ≡ y.ip = bytes_eq→eq x.ip y.ip (ground arith) in ground (arith, ports, ips)

pub address_eq_refl : (x : SocketAddress) → address_eq x x ≡ true
unfolding address_eq
address_eq_refl x = ground (arith, bytes_eq_refl x.ip)

module _ (P : SocketAddress → Type 0) where
  pub All-contains :
      (x : SocketAddress) (set : List SocketAddress) → All P set → contains x set ≡ true → P x
  unfolding contains
  All-contains x [] h c = cc
  All-contains x (y ∷ set) (hy, h) c = elim (Bool-cases (address_eq x y)) [
    | inl same ↦ subst P (sym (address_eq→eq x y same)) hy
    | inr other ↦ All-contains x set h (ground (arith, other, c))
  ]

  pub All-erase : (x : SocketAddress) (set : List SocketAddress) → All P set → All P (erase x set)
  unfolding erase
  All-erase x [] h = tt
  All-erase x (y ∷ set) (hy, h) = elim (Bool-cases (address_eq x y)) [
    | inl same ↦ rw same (All-erase x set h)
    | inr other ↦ rw other (hy, All-erase x set h)
  ]

  pub All-insert :
      (x : SocketAddress) (set : List SocketAddress) → P x → All P set → All P (insert x set)
  unfolding insert
  All-insert x set hx h = elim (Bool-cases (contains x set)) [
    | inl there ↦ rw there h
    | inr absent ↦ rw absent (hx, h)
  ]

pub All-map :
    {A : Type 0} {P Q : A → Type 0} (xs : List A) → ((x : A) → P x → Q x) → All P xs → All Q xs
All-map [] f h = tt
All-map (x ∷ xs) f (hx, h) = (f x hx, All-map xs f h)

pub All-append :
    {A : Type 0} (P : A → Type 0) (xs : List A) (y : A) → All P xs → P y → All P (xs ++ (y ∷ []))
All-append P [] y h hy = (hy, tt)
All-append P (x ∷ xs) y (hx, h) hy = (hx, All-append P xs y h hy)

pub All-set :
    {A : Type 0} (P : A → Type 0) (xs : List A) (i : ℕ) (y : A)
    → All P xs
    → P y
    → All P (set xs i y)
All-set P [] i y h hy = tt
All-set P (x ∷ xs) zero y (hx, h) hy = (hy, h)
All-set P (x ∷ xs) (suc i) y (hx, h) hy = (hx, All-set P xs i y h hy)

pub All-get :
    {A : Type 0} (P : A → Type 0) (xs : List A) (i : ℕ) (x : A)
    → All P xs
    → get_elem? xs i ≡ some x
    → P x
All-get P [] i x h at = cc
All-get P (y ∷ xs) zero x (hy, h) at = let same : y ≡ x = ground (arith, at) in subst P same hy
All-get P (y ∷ xs) (suc i) x (hy, h) at = All-get P xs i x h at

-- Some session of this address has sent a `PeerDisconnect` and has recorded it.
abbrev pub HasDisconnected : SocketAddress → List Session → Type 0
HasDisconnected x [] = ⊥
HasDisconnected x (session ∷ sessions) =
    ((x ≡ session.address) × (is_disconnected session.phase ≡ true)) ⊎ HasDisconnected x sessions

pub append-HasDisconnected :
    (x : SocketAddress) (sessions : List Session) (new : Session)
    → HasDisconnected x sessions
    → HasDisconnected x (sessions ++ (new ∷ []))
append-HasDisconnected x [] new h = absurd h
append-HasDisconnected x (session ∷ sessions) new (inl h) = inl h
append-HasDisconnected x (session ∷ sessions) new (inr h) =
    inr (append-HasDisconnected x sessions new h)

-- A session that has not disconnected may go on.
pub set-HasDisconnected :
    (x : SocketAddress) (sessions : List Session) (i : ℕ) (old new : Session)
    → get_elem? sessions i ≡ some old
    → is_disconnected old.phase ≡ false
    → HasDisconnected x sessions
    → HasDisconnected x (set sessions i new)
set-HasDisconnected x [] i old new at live h = absurd h
set-HasDisconnected x (session ∷ sessions) zero old new at live (inl h) =
    let same : session ≡ old = ground (arith, at) in
    let no : true ≡ false = sym h.1 ∙ (ap (λ s. is_disconnected s.phase) same ∙ live) in cc
set-HasDisconnected x (session ∷ sessions) zero old new at live (inr h) = inr h
set-HasDisconnected x (session ∷ sessions) (suc i) old new at live (inl h) = inl h
set-HasDisconnected x (session ∷ sessions) (suc i) old new at live (inr h) =
    inr (set-HasDisconnected x sessions i old new at live h)

pub here-HasDisconnected :
    (sessions : List Session) (i : ℕ) (old new : Session)
    → get_elem? sessions i ≡ some old
    → is_disconnected new.phase ≡ true
    → HasDisconnected new.address (set sessions i new)
here-HasDisconnected [] i old new at gone = cc
here-HasDisconnected (session ∷ sessions) zero old new at gone = inl (refl, gone)
here-HasDisconnected (session ∷ sessions) (suc i) old new at gone =
    inr (here-HasDisconnected sessions i old new at gone)
