-- ===== src/Connection/Safety/Client.antt =====
-- `_connect_as_client` fails no assertion and follows no null pointer.
use p2psc.Prelude.{ℕ, ◌<◌, ◌≡◌, ap, ◌∙◌, true, none, some, Bytes, List, length}
use p2psc.Errors.{Exception, socket_exception}
use p2psc.Crypto.OpenSsl.{OpenSsl, Base64}
use p2psc.Crypto.Key.{Keypair}
use p2psc.Message.Codec.{JsonLibrary}
use p2psc.Message.Format.{Message}
use p2psc.Message.Payloads.Handshake.{PeerChallengeResponse}
use p2psc.Net.Objects.{Socket, SocketPtr, PunchedPeer, MediatorConnection, from_address}
use p2psc.Net.System.{Os}
use p2psc.Net.Run.{Run, pure, on_exception, ◌>>=◌, ◌>>◌}
use p2psc.Net.Messages.{release}
use p2psc.Mediation.{get_punched_peer}
use p2psc.Net.Run.Safe.{
  Assertion, Safe, Keeps, IsPointer, Safe-assume, Safe-weaken, Safe-pure, Safe-raise, Keeps-raise,
  Keeps-if,
}
use p2psc.Net.Run.Safe.Compose.{Safe-bind, Safe-catch, Safe-on_exception, Keeps-bind, keeps_rules}
use p2psc.Net.Socket.{create_socket}
use p2psc.Net.Socket.Safety.{
  HasObject, IsConnected, IsConnected-HasObject, IsLasting, lt-IsPointer, create_socket-Safe,
}
use p2psc.Net.Messages.Safety.{send_and_log-Keeps, receive_and_log-Keeps}
use p2psc.Mediation.Safety.{IsReady, IsDisposable}
use p2psc.Mediation.Loop.{crypto_to_runtime-Keeps}
use p2psc.Mediation.Closing.{
  Holds, holds-IsLasting, both-IsLasting, IsValid-IsLasting, get_punched_peer-Keeps, release-Keeps,
  close_socket-Safe,
}
use p2psc.Connection.{
  generate_nonce, require_version, retry_connect, reach_peer, answer_peer, challenge_peer,
  client_handshake, connect_as_client,
}

pub generate_nonce-Keeps : ⦃o : Os⦄ {P : Assertion} → Keeps P generate_nonce
unfolding generate_nonce
generate_nonce-Keeps = search keeps_rules

module _ ⦃j : JsonLibrary⦄ ⦃s : OpenSsl⦄ ⦃b : Base64⦄ ⦃o : Os⦄ {P : Assertion}
    (our_keypair : Keypair) (q : ℕ)
    (pointer : (s : List Socket) (c : MediatorConnection) → P s c → IsPointer q s) where
  answer_peer-Keeps :
      (nonce : Bytes) (response : Message PeerChallengeResponse)
      → Keeps P (answer_peer our_keypair nonce (some q) response)
  unfolding answer_peer
  answer_peer-Keeps nonce response = Keeps-if _ _ _ (Keeps-raise _) (
      Keeps-bind _ _ (search (keeps_rules, crypto_to_runtime-Keeps)) λ n.
        Keeps-bind _ _ (send_and_log-Keeps q pointer ⦃m = _⦄ _)
          λ u. Keeps-bind _ _ (receive_and_log-Keeps q pointer ⦃m = _⦄) λ a. search keeps_rules)

  challenge_peer-Keeps :
      (nonce encrypted : Bytes) → Keeps P (challenge_peer our_keypair nonce (some q) encrypted)
  unfolding challenge_peer
  challenge_peer-Keeps nonce encrypted =
      Keeps-bind _ _ (send_and_log-Keeps q pointer ⦃m = _⦄ _) λ u.
        Keeps-bind _ _ (receive_and_log-Keeps q pointer ⦃m = _⦄)
          λ response. answer_peer-Keeps nonce response

  client_handshake-Keeps :
      (p : PunchedPeer)
      → ((s : List Socket) (c : MediatorConnection) → P s c → c.punched_peer ≡ some p)
      → Keeps P (client_handshake our_keypair (some q))
  unfolding client_handshake
  client_handshake-Keeps p known = Keeps-bind _ _ generate_nonce-Keeps λ nonce.
      Keeps-bind _ _ (get_punched_peer-Keeps p known) λ punched_peer.
        Keeps-bind _ _ (search keeps_rules) λ pad.
          Keeps-bind _ _ (search keeps_rules) λ encrypted. challenge_peer-Keeps nonce encrypted

module _ ⦃o : Os⦄ {P : Assertion} (lasting : IsLasting P) (p : PunchedPeer)
    (known : (s : List Socket) (c : MediatorConnection) → P s c → c.punched_peer ≡ some p) where
  require_version-Keeps : (p : PunchedPeer) → Keeps P (require_version p)
  unfolding require_version
  require_version-Keeps p = search keeps_rules

  obtain-Safe :
      Safe P
        (get_punched_peer >>= λ p. create_socket (from_address p.address))
        (λ q s c. P s c × IsConnected q s)
        P
  obtain-Safe =
      Safe-bind (λ p. P) _ _ (get_punched_peer-Keeps p known) λ p. create_socket-Safe lasting _

  retry_connect-Safe :
      (e : Exception) → Safe P (retry_connect create_socket e) (λ q s c. P s c × IsConnected q s) P
  unfolding retry_connect
  retry_connect-Safe (socket_exception what) =
      Safe-bind (λ u. P) _ _ (search keeps_rules) λ u. obtain-Safe
  retry_connect-Safe _ = Safe-raise _ (λ s c h. h)

  reach_peer-Safe : Safe P (reach_peer create_socket) (λ q s c. P s c × IsConnected q s) P
  unfolding reach_peer
  reach_peer-Safe = Safe-catch P _ _ obtain-Safe retry_connect-Safe

-- The result is a pointer to an object, and the `MediatorConnection` may be destroyed.
abbrev pub IsResult : SocketPtr → Assertion
IsResult q s c = HasObject q s × IsDisposable s c

module _ ⦃j : JsonLibrary⦄ ⦃s : OpenSsl⦄ ⦃b : Base64⦄ ⦃o : Os⦄ (our_keypair : Keypair)
    (c₀ : MediatorConnection) where
  -- A handshake on a pointer to an object, which is let go of where the handshake throws.
  pub verified-Safe :
      (handshake : SocketPtr → Run (Unit {0}))
      → ((q : ℕ) → Keeps (λ s c. Holds c₀ s c × (q < length s)) (handshake (some q)))
      → (q : SocketPtr)
      → Safe
          (λ s c. Holds c₀ s c × IsConnected q s)
          (on_exception (handshake q) (release q) >> pure q)
          IsResult
          IsDisposable
  verified-Safe handshake keeps none = Safe-assume _ (λ s c h. h.1) λ no. absurd no
  verified-Safe handshake keeps (some q) =
      Safe-bind (λ u s c. Holds c₀ s c × (q < length s)) _ _
        (Safe-weaken _ (λ s c h. (h.0, IsConnected-HasObject (some q) s h.1)) (λ u s c h. h)
          (λ s c h. h.0.1)
          (Safe-on_exception _ _ _ (keeps q) (
            release-Keeps (some q)
              (both-IsLasting (holds-IsLasting c₀) (IsValid-IsLasting (some q))) (λ s c h. h.1))))
        λ u. Safe-pure (some q) (λ s c h. (h.1, h.0.1))

  -- On an object that knows the address of the peer.
  pub connect_as_client-Safe :
      (s₀ : List Socket) (p : PunchedPeer)
      → IsReady s₀ c₀
      → c₀.connected ≡ true
      → c₀.punched_peer ≡ some p
      → Safe
          (λ s c. (s ≡ s₀) × (c ≡ c₀))
          (connect_as_client our_keypair create_socket)
          IsResult
          IsDisposable
  unfolding connect_as_client
  connect_as_client-Safe s₀ p ready connected known =
      Safe-bind (λ u. Holds c₀) _ _ (disposable (close_socket-Safe s₀ c₀ ready connected))
        λ u.
          Safe-bind (λ p. Holds c₀) _ _ (disposable (get_punched_peer-Keeps p here))
            λ p'.
              Safe-bind (λ u. Holds c₀) _ _
                (disposable (require_version-Keeps (holds-IsLasting c₀) p here p'))
                λ u.
                  Safe-bind (λ q s c. Holds c₀ s c × IsConnected q s) _ _
                    (disposable (reach_peer-Safe (holds-IsLasting c₀) p here))
                    λ q.
                      verified-Safe (client_handshake our_keypair)
                        (λ q.
                          client_handshake-Keeps our_keypair q (λ s c h. lt-IsPointer q s h.1) p
                            (λ s c h. here s c h.0))
                        q
    where
      here : (s : List Socket) (c : MediatorConnection) → Holds c₀ s c → c.punched_peer ≡ some p
      here s c h = ap (λ c. c.punched_peer) h.0 ∙ known

      disposable :
          {A : Type 0} {P : Assertion} {Q : A → Assertion} {m : Run A}
          → Safe P m Q (Holds c₀)
          → Safe P m Q IsDisposable
      disposable = Safe-weaken _ (λ s c h. h) (λ a s c h. h) (λ s c h. h.1)
