-- ===== src/Mediation/Safety.antt =====
-- The handshake with the Mediator fails no assertion and follows no null pointer.
use p2psc.Prelude.{
  ℕ, ◌≡◌, refl, ap, ◌∙◌, arith, Bytes, ◌==◌, true, false, not, none, some, List, subst, sym,
}
use p2psc.Crypto.OpenSsl.{OpenSsl, Base64}
use p2psc.Crypto.Key.{Keypair}
use p2psc.Message.Types.{type_peer_identification, type_peer_disconnect}
use p2psc.Message.Codec.{JsonLibrary}
use p2psc.Message.Payloads.Mediation.{PeerDisconnect}
use p2psc.Net.Objects.{Socket, SocketPtr, Peer, PunchedPeer, Mediator, MediatorConnection}
use p2psc.Net.System.{Os}
use p2psc.Net.Run.{Run, modify_connection, assert, ◌>>=◌, ◌>>◌}
use p2psc.Net.Run.Safe.{
  Assertion, Safe, Keeps, IsPointer, Safe-gets, Safe-assert, Safe-assume, Safe-weaken, Safe-pure,
  Safe-modify_connection, Safe-if,
}
use p2psc.Net.Run.Safe.Compose.{Safe-bind, keeps_rules}
use p2psc.Net.Socket.{create_socket}
use p2psc.Net.Socket.Safety.{
  IsValid, IsOpen, IsConnected, IsConnected-HasObject, IsLasting, create_socket-Safe,
}
use p2psc.Net.Messages.Safety.{receive_raw-Keeps}
use p2psc.Mediation.{
  new, advertise_loop, advertise_fuel, await_peer, answer_challenge, connect, on_identification,
  on_disconnect, has_punched_peer, has_peer_disconnect,
}
use p2psc.Mediation.Loop.{advertise_loop-Keeps, answer_challenge-Keeps}

-- After the handshake: the socket is open, and the object is connected if it knows of the peer.
pub record IsReady (s : List Socket) (c : MediatorConnection) : Type 0 where
  pub socket : ℕ
  pub socket_eq : c.socket ≡ some socket
  pub is_open : IsOpen socket s
  pub punched : has_punched_peer c ≡ true → c.connected ≡ true
  pub disconnected : has_peer_disconnect c ≡ true → c.connected ≡ true

-- The destructor of the object may run.
abbrev pub IsDisposable : Assertion
IsDisposable s c = IsValid c.socket s

-- The object with its socket, before the Mediator has spoken of the peer.
abbrev pub IsWaiting : Mediator → ℕ → Assertion
IsWaiting mediator q s c = (c ≡ record (new mediator) { socket = some q }) × IsOpen q s

IsWaiting-IsPointer :
    (mediator : Mediator) (q : ℕ) (s : List Socket) (c : MediatorConnection)
    → IsWaiting mediator q s c
    → IsPointer q s
IsWaiting-IsPointer mediator q s c (e, (v, at, is_open)) = (v, at)

IsWaiting-IsDisposable :
    (mediator : Mediator) (q : ℕ) (s : List Socket) (c : MediatorConnection)
    → IsWaiting mediator q s c
    → IsDisposable s c
unfolding new
IsWaiting-IsDisposable mediator q s c (e, h) =
    subst (λ c. IsDisposable s c) (sym e) (IsConnected-HasObject (some q) s h)

IsReady-identified :
    (mediator : Mediator) (p : PunchedPeer) (q : ℕ) (s : List Socket) (c : MediatorConnection)
    → IsWaiting mediator q s c
    → IsReady s (record c { punched_peer = some p; connected = true })
IsReady-identified mediator p q s c (e, h) = record {
  socket = q;
  socket_eq = ap (λ c. c.socket) e;
  is_open = h;
  punched = λ _. refl;
  disconnected = λ _. refl;
}

IsReady-disconnected :
    (mediator : Mediator) (d : PeerDisconnect) (q : ℕ) (s : List Socket) (c : MediatorConnection)
    → IsWaiting mediator q s c
    → IsReady s (record c { peer_disconnect = some d; connected = true })
IsReady-disconnected mediator d q s c (e, h) = record {
  socket = q;
  socket_eq = ap (λ c. c.socket) e;
  is_open = h;
  punched = λ _. refl;
  disconnected = λ _. refl;
}

-- Without word of the peer the object is not connected, and nothing asks that it is.
IsReady-unconnected :
    (mediator : Mediator) (q : ℕ) (s : List Socket) (c : MediatorConnection)
    → IsWaiting mediator q s c
    → IsReady s c
unfolding new has_punched_peer has_peer_disconnect
IsReady-unconnected mediator q s c (e, h) = record {
  socket = q;
  socket_eq = ap (λ c. c.socket) e;
  is_open = h;
  punched = λ known. (let no : false ≡ true = sym (ap has_punched_peer e) ∙ known in cc);
  disconnected = λ known. (let no : false ≡ true = sym (ap has_peer_disconnect e) ∙ known in cc);
}

module _ ⦃j : JsonLibrary⦄ ⦃s : OpenSsl⦄ ⦃b : Base64⦄ ⦃o : Os⦄ (our_keypair : Keypair) (peer : Peer)
    (mediator : Mediator) where
  module _ (q : ℕ) where
    -- What leaves the object and its socket as they are.
    waiting :
        {A : Type 0} (m : Run A)
        → Keeps (IsWaiting mediator q) m
        → Safe (IsWaiting mediator q) m (λ a. IsWaiting mediator q) IsDisposable
    waiting m = Safe-weaken m (λ s c h. h) (λ a s c h. h) (IsWaiting-IsDisposable mediator q)

    on_identification-Safe :
        (raw : Bytes)
        → Safe
            (IsWaiting mediator q)
            (on_identification our_keypair peer raw)
            (λ u. IsReady)
            IsDisposable
    unfolding on_identification
    on_identification-Safe raw =
        Safe-bind (λ i. IsWaiting mediator q) _ _ (waiting _ (search keeps_rules))
          λ i. Safe-modify_connection _ (IsReady-identified mediator _ q)

    on_disconnect-Safe :
        (raw : Bytes)
        → Safe
            (IsWaiting mediator q)
            (on_disconnect our_keypair peer raw)
            (λ u. IsReady)
            IsDisposable
    unfolding on_disconnect
    on_disconnect-Safe raw =
        Safe-bind (λ i. IsWaiting mediator q) _ _ (waiting _ (search keeps_rules))
          λ d. Safe-modify_connection _ (IsReady-disconnected mediator _ q)

    await_peer-Safe :
        Safe
          (IsWaiting mediator q)
          (await_peer our_keypair peer (some q))
          (λ u. IsReady)
          IsDisposable
    unfolding await_peer
    await_peer-Safe =
        Safe-bind (λ raw. IsWaiting mediator q) _ _
          (waiting _ (receive_raw-Keeps q (IsWaiting-IsPointer mediator q)))
          λ raw.
            Safe-bind (λ type. IsWaiting mediator q) _ _ (waiting _ (search keeps_rules))
              λ type. Safe-if (type == type_peer_identification) _ _ (on_identification-Safe raw) (
                Safe-if (type == type_peer_disconnect) _ _ (on_disconnect-Safe raw)
                  (Safe-pure tt (IsReady-unconnected mediator q)))

    -- `connect` once it has its socket.
    handshake-Safe :
        Safe
          (IsWaiting mediator q)
          (do
            challenge ← advertise_loop our_keypair peer advertise_fuel (some q) 0
            answer_challenge our_keypair peer (some q) challenge
            await_peer our_keypair peer (some q))
          (λ u. IsReady)
          IsDisposable
    handshake-Safe =
        Safe-bind (λ c. IsWaiting mediator q) _ _
          (waiting _ (
            advertise_loop-Keeps our_keypair peer q (IsWaiting-IsPointer mediator q) advertise_fuel
              0 (omega arith) (omega arith)))
          λ c.
            Safe-bind (λ u. IsWaiting mediator q) _ _
              (waiting _
                (answer_challenge-Keeps our_keypair peer q (IsWaiting-IsPointer mediator q) c))
              λ u. await_peer-Safe

  IsNew : Assertion
  IsNew s c = c ≡ new mediator

  IsNew-IsLasting : IsLasting IsNew
  unfolding IsNew
  IsNew-IsLasting = record { append = λ s c v h. h; set_lem = λ s c p v h. h }

  new-IsDisposable : (s : List Socket) (c : MediatorConnection) → IsNew s c → IsDisposable s c
  unfolding IsNew new
  new-IsDisposable s c e = subst (λ c. IsDisposable s c) (sym e) tt

  obtained-IsWaiting :
      (q : ℕ) (s : List Socket) (c : MediatorConnection)
      → IsNew s c × IsOpen q s
      → IsWaiting mediator q s (record c { socket = some q })
  unfolding IsNew
  obtained-IsWaiting q s c (e, h) =
      (ap {A = MediatorConnection} (λ c. record c { socket = some q }) e, h)

  -- `connect` from the point at which its socket has been created.
  obtained-Safe :
      (socket : SocketPtr)
      → Safe
          (λ s c. IsNew s c × IsConnected socket s)
          (do
            modify_connection (λ c. record c { socket = socket })
            challenge ← advertise_loop our_keypair peer advertise_fuel socket 0
            answer_challenge our_keypair peer socket challenge
            await_peer our_keypair peer socket)
          (λ u. IsReady)
          IsDisposable
  obtained-Safe none = Safe-assume _ (λ s c h. h.1) λ no. absurd no
  obtained-Safe (some q) =
      Safe-bind (λ u. IsWaiting mediator q) _ _ (Safe-modify_connection _ (obtained-IsWaiting q))
        λ u. handshake-Safe q

  unconnected :
      (c' : MediatorConnection)
      → Safe
          (λ s c. (c' ≡ new mediator) × (c ≡ new mediator))
          (assert (not c'.connected))
          (λ u. IsNew)
          IsDisposable
  unfolding new IsNew
  unconnected c' =
      Safe-assume _ (λ s c h. h.0)
        λ e. Safe-assert (not c'.connected) (ap (λ c. not c.connected) e) (λ s c h. h.1)

  pub connect-Safe :
      Safe
        (λ s c. c ≡ new mediator)
        (connect our_keypair peer create_socket)
        (λ u. IsReady)
        IsDisposable
  unfolding connect IsNew
  connect-Safe =
      Safe-bind (λ c' s c. (c' ≡ new mediator) × (c ≡ new mediator)) _ _
        (Safe-gets (λ c. c) (λ s c h. (h, h)))
        λ c'.
          Safe-bind (λ u. IsNew) _ _ (unconnected c')
            λ u.
              Safe-bind (λ q s c. IsNew s c × IsConnected q s) _ _
                (Safe-weaken _ (λ s c h. h) (λ q s c h. h) new-IsDisposable
                  (create_socket-Safe IsNew-IsLasting _))
                λ q. obtained-Safe q
