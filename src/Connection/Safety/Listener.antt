-- ===== src/Connection/Safety/Listener.antt =====
-- `_connect_as_peer` fails no assertion, and follows a null pointer only where `accept` has failed.
use p2psc.Prelude.{ℕ, ◌≡◌, refl, ap, subst, ◌∙◌, sym, true, none, some, Bytes, List, Option}
use p2psc.Crypto.OpenSsl.{OpenSsl, Base64}
use p2psc.Crypto.Key.{Keypair}
use p2psc.Message.Codec.{JsonLibrary}
use p2psc.Message.Format.{Message}
use p2psc.Message.Payloads.Handshake.{PeerChallenge, PeerChallengeResponse, PeerResponse}
use p2psc.Message.Payloads.Mediation.{PeerDisconnect}
use p2psc.Net.Objects.{Socket, Peer, MediatorConnection}
use p2psc.Net.System.{Os}
use p2psc.Net.Run.{Run, World, crashed, pure, and_then, catch, on_exception, ◌>>=◌, ◌>>◌}
use p2psc.Net.Run.Safe.{
  Assertion, Safe, Keeps, IsPointer, IsGood, Safe-assume, Safe-weaken, Keeps-raise, Keeps-if,
}
use p2psc.Net.Run.Safe.Compose.{Safe-bind, Safe-scoped, Keeps-bind, keeps_rules}
use p2psc.Net.Socket.{create_socket}
use p2psc.Net.Socket.Safety.{IsConnected, lt-IsPointer, create_socket-Safe}
use p2psc.Net.Messages.{release, receive_raw, receive_and_log}
use p2psc.Net.Messages.Safety.{send_and_log-Keeps, receive_and_log-Keeps}
use p2psc.Net.Listening.{LocalListeningSocket, session}
use p2psc.Net.Listening.Safety.{listen_on-Safe, destroy-Keeps, accept-session}
use p2psc.Mediation.Safety.{IsReady, IsDisposable}
use p2psc.Mediation.Closing.{
  Holds, holds-IsLasting, get_peer_disconnect-Keeps, close_socket-Safe, ready-IsDisposable,
}
use p2psc.Connection.{
  acknowledge_client, challenge_client, answer_client, peer_handshake, accept_client,
  connect_as_peer,
}
use p2psc.Connection.Safety.Client.{generate_nonce-Keeps, IsResult, verified-Safe}

module _ ⦃j : JsonLibrary⦄ ⦃s : OpenSsl⦄ ⦃b : Base64⦄ ⦃o : Os⦄ {P : Assertion}
    (our_keypair : Keypair) (peer : Peer) (q : ℕ)
    (pointer : (s : List Socket) (c : MediatorConnection) → P s c → IsPointer q s) where
  acknowledge_client-Keeps :
      (nonce : Bytes) (response : Message PeerResponse)
      → Keeps P (acknowledge_client our_keypair nonce (some q) response)
  unfolding acknowledge_client
  acknowledge_client-Keeps nonce response =
      Keeps-if _ _ _ (Keeps-raise _) (send_and_log-Keeps q pointer ⦃m = _⦄ _)

  challenge_client-Keeps :
      (nonce : Bytes) (response : PeerChallengeResponse)
      → Keeps P (challenge_client our_keypair nonce (some q) response)
  unfolding challenge_client
  challenge_client-Keeps nonce response =
      Keeps-bind _ _ (send_and_log-Keeps q pointer ⦃m = _⦄ _) λ u.
        Keeps-bind _ _ (receive_and_log-Keeps q pointer ⦃m = _⦄)
          λ response. acknowledge_client-Keeps nonce response

  answer_client-Keeps :
      (challenge : Message PeerChallenge)
      → Keeps P (answer_client our_keypair peer (some q) challenge)
  unfolding answer_client
  answer_client-Keeps challenge =
      search (keeps_rules, generate_nonce-Keeps, challenge_client-Keeps) depth 14

  peer_handshake-Keeps : Keeps P (peer_handshake our_keypair peer (some q))
  unfolding peer_handshake
  peer_handshake-Keeps =
      Keeps-bind _ _ (receive_and_log-Keeps q pointer ⦃m = _⦄)
        λ challenge. answer_client-Keeps challenge

module _ ⦃j : JsonLibrary⦄ ⦃s : OpenSsl⦄ ⦃b : Base64⦄ ⦃o : Os⦄ (our_keypair : Keypair) (peer : Peer)
    (c₀ : MediatorConnection) where
  -- With the descriptor that `accept` has returned.
  accepted-Safe :
      (l : LocalListeningSocket) (fd : ℕ)
      → Safe
          (Holds c₀)
          (do
            socket ← session create_socket l (some fd)
            on_exception (peer_handshake our_keypair peer socket) (release socket)
            pure socket)
          IsResult
          IsDisposable
  unfolding session
  accepted-Safe l fd =
      Safe-bind (λ q s c. Holds c₀ s c × IsConnected q s) _ _
        (Safe-weaken _ (λ s c h. h) (λ q s c h. h) (λ s c h. h.1)
          (Safe-bind (λ u. Holds c₀) _ _ (search keeps_rules)
            λ u. create_socket-Safe (holds-IsLasting c₀) _))
        λ q.
          verified-Safe our_keypair c₀ (peer_handshake our_keypair peer)
            (λ q. peer_handshake-Keeps our_keypair peer q (λ s c h. lt-IsPointer q s h.1)) q

  -- What `accept_client` does with the result of `accept`.
  accepting-eq :
      (l : LocalListeningSocket) (r : Option ℕ) (w : World)
      → l.is_open ≡ true
      → o.accept w.trace (some l.sockfd) ≡ r
      → accept_client our_keypair peer create_socket l w
        ≡ (do
          socket ← session create_socket l r
          on_exception (peer_handshake our_keypair peer socket) (release socket)
          pure socket)
            w
  unfolding accept_client ◌>>=◌
  accepting-eq l r w is_open e =
      ap
        (λ x.
          and_then x.0
            (λ socket.
              on_exception (peer_handshake our_keypair peer socket) (release socket) >> pure socket)
            x.1)
        (accept-session create_socket l r w is_open e)

  -- Without a socket the handshake follows a null pointer.
  refused-eq :
      (l : LocalListeningSocket) (w : World)
      → (do
        socket ← session create_socket l none
        on_exception (peer_handshake our_keypair peer socket) (release socket)
        pure socket)
          w
        ≡ (crashed, w)
  unfolding session ◌>>=◌ on_exception catch peer_handshake receive_and_log receive_raw
  refused-eq l w = refl

  accept_client-IsGood :
      (l : LocalListeningSocket) (r : Option ℕ) (w : World)
      → l.is_open ≡ true
      → o.accept w.trace (some l.sockfd) ≡ r
      → Holds c₀ w.sockets w.connection
      → IsGood IsResult IsDisposable
          (accept_client our_keypair peer create_socket l w).0
          (accept_client our_keypair peer create_socket l w).1
  accept_client-IsGood l none w is_open e h =
      subst (λ x. IsGood IsResult IsDisposable x.0 x.1)
        (sym (accepting-eq l none w is_open e ∙ refused-eq l w)) (l.sockfd, e)
  accept_client-IsGood l (some fd) w is_open e h =
      subst (λ x. IsGood IsResult IsDisposable x.0 x.1) (sym (accepting-eq l (some fd) w is_open e))
        ((accepted-Safe l fd).after w h)

  accept_client-Safe :
      (l : LocalListeningSocket)
      → l.is_open ≡ true
      → Safe (Holds c₀) (accept_client our_keypair peer create_socket l) IsResult IsDisposable
  accept_client-Safe l is_open = record { after = λ w h. accept_client-IsGood l _ w is_open refl h }

  disposable :
      {A : Type 0} {P : Assertion} {Q : A → Assertion} {m : Run A}
      → Safe P m Q (Holds c₀)
      → Safe P m Q IsDisposable
  disposable = Safe-weaken _ (λ s c h. h) (λ a s c h. h) (λ s c h. h.1)

  -- On an object that knows the port to listen on.
  pub connect_as_peer-Safe :
      (s₀ : List Socket) (d : PeerDisconnect)
      → IsReady s₀ c₀
      → c₀.connected ≡ true
      → c₀.peer_disconnect ≡ some d
      → Safe
          (λ s c. (s ≡ s₀) × (c ≡ c₀))
          (connect_as_peer our_keypair peer create_socket)
          IsResult
          IsDisposable
  unfolding connect_as_peer
  connect_as_peer-Safe s₀ d ready connected known =
      Safe-bind (λ d s c. (s ≡ s₀) × (c ≡ c₀)) _ _
        (Safe-weaken _ (λ s c h. h) (λ a s c h. h) disposed
          (get_peer_disconnect-Keeps d (λ s c h. ap (λ c. c.peer_disconnect) h.1 ∙ known)))
        λ d.
          Safe-bind (λ u. Holds c₀) _ _ (disposable (close_socket-Safe s₀ c₀ ready connected))
            λ u.
              Safe-bind (λ l s c. Holds c₀ s c × (l.is_open ≡ true)) _ _
                (disposable (listen_on-Safe _))
                λ l.
                  Safe-assume _ (λ s c h. h.1)
                    λ is_open.
                      Safe-scoped IsDisposable IsResult _ _
                        (Safe-weaken _ (λ s c h. h.0) (λ a s c h. h) (λ s c h. h)
                          (accept_client-Safe l is_open))
                        (destroy-Keeps l)
                        λ q.
                          Safe-weaken _ (λ s c h. h) (λ a s c h. h) (λ s c h. h.1) (destroy-Keeps l)
    where
      disposed : (s : List Socket) (c : MediatorConnection) → (s ≡ s₀) × (c ≡ c₀) → IsDisposable s c
      disposed s c (es, ec) =
          subst (λ s. IsDisposable s c) (sym es)
            (subst (λ c. IsDisposable s₀ c) (sym ec) (ready-IsDisposable s₀ c₀ ready))
