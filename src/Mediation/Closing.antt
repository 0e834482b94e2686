-- ===== src/Mediation/Closing.antt =====
-- What the members of `MediatorConnection` that the second half of an attempt calls need and keep.
use p2psc.Prelude.{
  ℕ, ◌≡◌, ap, ◌∙◌, sym, true, Option, none, some, List, ◌∷◌, [], ◌++◌, set, length-append, arith,
  subst,
}
use p2psc.Net.Objects.{Socket, SocketPtr, PunchedPeer, MediatorConnection}
use p2psc.Message.Payloads.Mediation.{PeerDisconnect}
use p2psc.Net.System.{Os}
use p2psc.Net.Run.{gets, not_null, ◌>>=◌}
use p2psc.Net.Run.Safe.{Assertion, Safe, Keeps, Safe-gets, Safe-assert, Safe-assume, Safe-weaken}
use p2psc.Net.Run.Safe.Compose.{Safe-bind, keeps_rules}
use p2psc.Net.Socket
use p2psc.Net.Socket.Safety.{
  IsValid, IsOpen, IsLasting, close-Safe, open-lt, length-set, destroy-Keeps, lt-IsPointer,
}
use p2psc.Net.Messages.{release}
use p2psc.Mediation.Safety.{IsReady, IsDisposable}
use p2psc.Mediation.{
  asserted, get_punched_peer, get_peer_disconnect, get_socket, close_socket, destroy,
}

append-IsValid :
    (q : SocketPtr) (s : List Socket) (v : Socket) → IsValid q s → IsValid q (s ++ (v ∷ []))
append-IsValid none s v h = tt
append-IsValid (some q) s v h = omega (arith, length-append s (v ∷ []))

set-IsValid :
    (q : SocketPtr) (s : List Socket) (p : ℕ) (v : Socket) → IsValid q s → IsValid q (set s p v)
set-IsValid none s p v h = tt
set-IsValid (some q) s p v h = omega (arith, length-set s p v)

-- A pointer of the thread keeps its object.
pub IsValid-IsLasting : (q : SocketPtr) → IsLasting (λ s c. IsValid q s)
IsValid-IsLasting q = record {
  append = λ s c v h. append-IsValid q s v h;
  set_lem = λ s c p v h. set-IsValid q s p v h;
}

pub both-IsLasting :
    {P Q : Assertion} → IsLasting P → IsLasting Q → IsLasting (λ s c. P s c × Q s c)
both-IsLasting p q = record {
  append = λ s c v h. (p.append s c v h.0, q.append s c v h.1);
  set_lem = λ s c i v h. (p.set_lem s c i v h.0, q.set_lem s c i v h.1);
}

-- The object is `c₀`, and may be destroyed.
abbrev pub Holds : MediatorConnection → Assertion
Holds c₀ s c = (c ≡ c₀) × IsDisposable s c

pub holds-IsLasting : (c₀ : MediatorConnection) → IsLasting (Holds c₀)
holds-IsLasting c₀ = record {
  append = λ s c v h. (h.0, append-IsValid c.socket s v h.1);
  set_lem = λ s c p v h. (h.0, set-IsValid c.socket s p v h.1);
}

module _ ⦃o : Os⦄ {P : Assertion} {A : Type 0} where
  asserted-Keeps : (x : Option A) (a : A) → x ≡ some a → Keeps P (asserted x)
  unfolding asserted
  asserted-Keeps none a e = cc
  asserted-Keeps (some b) a e = search keeps_rules

  optional-Keeps :
      (f : MediatorConnection → Option A) (a : A)
      → ((s : List Socket) (c : MediatorConnection) → P s c → f c ≡ some a)
      → Keeps P (gets (λ w. f w.connection) >>= asserted)
  optional-Keeps f a known =
      Safe-bind (λ x s c. (x ≡ some a) × P s c) _ _ (Safe-gets f (λ s c h. (known s c h, h)))
        λ x.
          Safe-assume _ (λ s c h. h.0)
            λ e. Safe-weaken _ (λ s c h. h.1) (λ a s c h. h) (λ s c h. h) (asserted-Keeps x a e)

module _ ⦃o : Os⦄ {P : Assertion} where
  pub get_punched_peer-Keeps :
      (p : PunchedPeer)
      → ((s : List Socket) (c : MediatorConnection) → P s c → c.punched_peer ≡ some p)
      → Keeps P get_punched_peer
  unfolding get_punched_peer
  get_punched_peer-Keeps p known = optional-Keeps (λ c. c.punched_peer) p known

  pub get_peer_disconnect-Keeps :
      (d : PeerDisconnect)
      → ((s : List Socket) (c : MediatorConnection) → P s c → c.peer_disconnect ≡ some d)
      → Keeps P get_peer_disconnect
  unfolding get_peer_disconnect
  get_peer_disconnect-Keeps d known = optional-Keeps (λ c. c.peer_disconnect) d known

  pub release-Keeps :
      (q : SocketPtr)
      → IsLasting P
      → ((s : List Socket) (c : MediatorConnection) → P s c → IsValid q s)
      → Keeps P (release q)
  unfolding release
  release-Keeps none lasting valid = search keeps_rules
  release-Keeps (some q) lasting valid =
      destroy-Keeps q (λ s c h. lt-IsPointer q s (valid s c h)) lasting

-- Any statement about the sockets outlives the `MediatorConnection` if it is lasting.
pub destroy-Safe :
    ⦃o : Os⦄ {P : Assertion}
    → IsLasting P
    → Safe (λ s c. P s c × IsDisposable s c) destroy (λ u. P) P
unfolding destroy get_socket
destroy-Safe {P} lasting =
    Safe-bind (λ q s c. P s c × IsValid q s) _ _ (Safe-gets (λ c. c.socket) (λ s c h. h))
      λ q.
        Safe-weaken _ (λ s c h. h) (λ u s c h. h.0) (λ s c h. h.0)
          (release-Keeps q (both-IsLasting lasting (IsValid-IsLasting q)) (λ s c h. h.1))

pub ready-IsDisposable : (s : List Socket) (c : MediatorConnection) → IsReady s c → IsDisposable s c
ready-IsDisposable s c ready =
    let (v, at, e) = ready.is_open in
    subst (λ q. IsValid q s) (sym ready.socket_eq) (open-lt ready.socket s v at)

module _ ⦃o : Os⦄ (s₀ : List Socket) (c₀ : MediatorConnection) (ready : IsReady s₀ c₀) where
  -- At `s₀` and `c₀`.
  abbrev Here : Assertion
  Here s c = (s ≡ s₀) × (c ≡ c₀)

  here-Holds : (s : List Socket) (c : MediatorConnection) → Here s c → Holds c₀ s c
  here-Holds s c (es, ec) = (
    ec,
    subst (λ s. IsDisposable s c) (sym es)
        (subst (λ c. IsDisposable s₀ c) (sym ec) (ready-IsDisposable s₀ c₀ ready)),
  )

  here-IsOpen :
      (q : ℕ) (s : List Socket) (c : MediatorConnection)
      → (some q ≡ c₀.socket) × Here s c
      → IsOpen q s
  here-IsOpen q s c (eq, (es, ec)) =
      let both : some q ≡ some ready.socket = eq ∙ ready.socket_eq in
      let same : ready.socket ≡ q = ground (arith, both) in
      subst (λ s. IsOpen q s) (sym es) (subst (λ p. IsOpen p s₀) same ready.is_open)

  close_member-Safe :
      (q : SocketPtr)
      → Safe
          (λ s c. (q ≡ c₀.socket) × Here s c)
          (not_null q >>= Socket.close)
          (λ u. Holds c₀)
          (Holds c₀)
  unfolding ◌>>=◌
  close_member-Safe none =
      Safe-assume _ (λ s c h. h.0)
        λ e. let no : none ≡ some ready.socket = e ∙ ready.socket_eq in cc
  close_member-Safe (some q) =
      close-Safe q (here-IsOpen q)
        (λ s c v h. (holds-IsLasting c₀).set_lem s c q v (here-Holds s c h.1))
        (λ s c h. here-Holds s c h.1)

  -- A connected object that is ready can close its socket.
  pub close_socket-Safe : c₀.connected ≡ true → Safe Here close_socket (λ u. Holds c₀) (Holds c₀)
  unfolding close_socket get_socket
  close_socket-Safe connected =
      Safe-bind (λ b s c. (b ≡ true) × Here s c) _ _
        (Safe-gets (λ c. c.connected) (λ s c h. (ap (λ c. c.connected) h.1 ∙ connected, h)))
        λ b.
          Safe-bind (λ u. Here) _ _
            (Safe-assume _ (λ s c h. h.0) λ e. Safe-assert b e (λ s c h. h.1))
            λ u.
              Safe-bind (λ q s c. (q ≡ c₀.socket) × Here s c) _ _
                (Safe-gets (λ c. c.socket) (λ s c h. (ap (λ c. c.socket) h.1, h)))
                λ q. close_member-Safe q
