-- ===== src/Connection/Attempt/Waiting.antt =====
-- The attempt of a peer that is told to wait, where the others keep to the protocol.
use p2psc.Prelude.{ℕ, ◌≡◌, refl, ap, ◌∙◌, arith, none, some, ◌∷◌, Bytes, get_elem?}
use p2psc.Crypto.OpenSsl.{OpenSsl, Base64}
use p2psc.Crypto.Key.{Keypair, encrypt, private_decrypt}
use p2psc.Errors
use p2psc.Errors.{unset}
use p2psc.Message.Codec.{JsonLibrary, JsonLaws}
use p2psc.Message.Payloads.Mediation.{
  PeerDisconnect, advertise_payload, advertise_challenge_payload, advertise_response_payload,
  peer_disconnect_payload,
}
use p2psc.Message.Payloads.Handshake.{
  PeerResponse, peer_challenge_payload, peer_challenge_response_payload, peer_response_payload,
  peer_acknowledgement_payload,
}
use p2psc.Net.Objects.{Socket, SocketPtr, Peer, Mediator, from_address}
use p2psc.Net.System.{Os}
use p2psc.Net.Run.{World, Run, ok, ◌>>=◌}
use p2psc.Net.Run.Returns.{bind-eq, pure-eq, on_exception-eq, scoped-eq}
use p2psc.Net.Run.Keeping.{kept}
use p2psc.Net.Socket.{create_socket}
use p2psc.Net.Socket.Keeping.{create_socket-Keeps}
use p2psc.Net.Listening.{LocalListeningSocket}
use p2psc.Net.Listening
use p2psc.Net.Messages.{release}
use p2psc.Net.Messages.Delivery.{Sends, Arrives}
use p2psc.Net.Messages.Keeping.{sent-kept, arrived-kept}
use p2psc.Mediation
use p2psc.Mediation.{
  advertise, get_peer_disconnect, close_socket, has_punched_peer, has_peer_disconnect,
}
use p2psc.Mediation.Completion.{
  advertise_challenge, advertise_response, holding, disconnected, connect-disconnected,
}
use p2psc.Connection.{Callback, peer_handshake, accept_client, connect_as_peer, reach, start}
use p2psc.Connection.Authentication.{nonce, asserted-bind}
use p2psc.Connection.Completion.{
  peer_challenge, challenge_response, acknowledgement, answer_client-run, peer_handshake-run,
}
use p2psc.Connection.Callback.{calls, Returns}
use p2psc.Connection.Attempt.{begun, connected-calls}

module _ ⦃o : Os⦄ where
  get_peer_disconnect-bind :
      {A : Type 0} (told : PeerDisconnect) (f : PeerDisconnect → Run A) (w : World)
      → w.connection.peer_disconnect ≡ some told
      → (get_peer_disconnect >>= f) w ≡ f told w
  unfolding get_peer_disconnect ◌>>=◌
  get_peer_disconnect-bind told f w at = asserted-bind w.connection.peer_disconnect f w told at

module _ ⦃j : JsonLibrary⦄ ⦃s : OpenSsl⦄ ⦃b : Base64⦄ ⦃o : Os⦄ (our_keypair : Keypair)
    (peer : Peer) where
  -- `w` is the state before the Mediator's socket is closed, `w₂` with the listening socket, `w₃`
  -- with the client's socket.
  connect_as_peer-run :
      (told : PeerDisconnect) (l : LocalListeningSocket) (socket : SocketPtr)
      (w w₁ w₂ w₃ w₄ w₅ : World)
      → w.connection.peer_disconnect ≡ some told
      → close_socket w ≡ (ok tt, w₁)
      → Listening.listen_on told.port w₁ ≡ (ok l, w₂)
      → Listening.accept create_socket l w₂ ≡ (ok socket, w₃)
      → peer_handshake our_keypair peer socket w₃ ≡ (ok tt, w₄)
      → Listening.destroy l w₄ ≡ (ok tt, w₅)
      → connect_as_peer our_keypair peer create_socket w ≡ (ok socket, w₅)
  unfolding connect_as_peer accept_client
  connect_as_peer-run told l socket w w₁ w₂ w₃ w₄ w₅ at closed listens accepted shaken destroyed =
      get_peer_disconnect-bind told _ w at
      ∙ bind-eq close_socket _ w w₁ tt closed
      ∙ bind-eq (Listening.listen_on told.port) _ w₁ w₂ l listens
      ∙ scoped-eq (accept_client our_keypair peer create_socket l) w₂ w₄ socket
          (bind-eq (Listening.accept create_socket l) _ w₂ w₃ socket accepted
            ∙ bind-eq _ _ w₃ w₄ tt (
                on_exception-eq (peer_handshake our_keypair peer socket) w₃ w₄ tt shaken
                  (release socket))
            ∙ pure-eq socket w₄)
          (Listening.destroy l) w₅ destroyed

  reach-run :
      (told : PeerDisconnect) (w w' : World) (socket : SocketPtr)
      → w.connection.punched_peer ≡ none
      → w.connection.peer_disconnect ≡ some told
      → connect_as_peer our_keypair peer create_socket w ≡ (ok socket, w')
      → reach our_keypair peer create_socket w ≡ (ok socket, w')
  unfolding reach has_punched_peer has_peer_disconnect ◌>>=◌
  reach-run told w w' socket nobody at connected = ground (arith, nobody, at, connected)

module _ ⦃j : JsonLibrary⦄ ⦃s : OpenSsl⦄ ⦃b : Base64⦄ ⦃o : Os⦄ (laws : JsonLaws j)
    (our_keypair : Keypair) (peer : Peer) (mediator : Mediator) where
  -- The whole attempt of a peer that waits calls the user's function once, with the socket of the
  -- client and no error, where the Mediator challenges our key and tells us to wait, the system
  -- makes the connection, opens the port and accepts a client, that client's side of the handshake
  -- follows the protocol, and what is sent arrives. The user's function has to return. `c₁` is what
  -- the Mediator encrypts, `c₂` the client's challenge and `c₃` the cipher of our nonce; the states
  -- are those after each call of the system.
  pub start-accepts :
      (callback : Callback) (plain c₁ c₂ c₃ theirs : Bytes) (disconnect : PeerDisconnect)
      (answer : PeerResponse) (mediator_socket : SocketPtr) (l : LocalListeningSocket) (p : ℕ)
      (object : Socket) (w w₀ w₁ w₂ w₃ w₄ w₅ w₆ w₇ w₈ w₉ w₁₀ w₁₁ w₁₂ w₁₃ : World)
      → Returns callback
      → create_socket (from_address mediator.socket_address) (begun mediator w)
        ≡ (ok mediator_socket, w₀)
      → Sends mediator_socket (advertise our_keypair peer) (holding mediator_socket w₀) w₁
      → Arrives mediator_socket (advertise_challenge c₁) w₁ w₂
      → private_decrypt our_keypair c₁ ≡ Errors.ok plain
      → Sends mediator_socket (advertise_response plain) w₂ w₃
      → Arrives mediator_socket disconnect w₃ w₄
      → close_socket (disconnected disconnect w₄) ≡ (ok tt, w₅)
      → Listening.listen_on disconnect.port w₅ ≡ (ok l, w₆)
      → Listening.accept create_socket l w₆ ≡ (ok (some p), w₇)
      → Arrives (some p) (peer_challenge c₂) w₇ w₈
      → private_decrypt our_keypair c₂ ≡ Errors.ok theirs
      → encrypt (o.padding w₈.trace) peer.public_key (nonce w₈) ≡ Errors.ok c₃
      → Sends (some p) (challenge_response c₃ theirs) w₈ w₉
      → Arrives (some p) answer w₉ w₁₀
      → answer.decrypted_nonce ≡ nonce w₈
      → Sends (some p) acknowledgement w₁₀ w₁₁
      → Listening.destroy l w₁₁ ≡ (ok tt, w₁₂)
      → Mediation.destroy w₁₂ ≡ (ok tt, w₁₃)
      → get_elem? w₁₃.sockets p ≡ some object
      → calls (start our_keypair peer mediator callback w).1.trace ≡ (unset, some p) ∷ calls w.trace
  unfolding Mediation.new
  start-accepts callback plain c₁ c₂ c₃ theirs disconnect answer mediator_socket l p object w w₀ w₁
        w₂ w₃ w₄ w₅ w₆ w₇ w₈ w₉ w₁₀ w₁₁ w₁₂ w₁₃ returns created sends challenged decrypted responds
        told closed listens accepted challenges opened encrypted answers responded same acknowledges
        unlistened destroyed there =
      let introduced =
        connect-disconnected laws our_keypair peer create_socket mediator_socket c₁ plain disconnect
          (begun mediator w) w₀ w₁ w₂ w₃ w₄ refl created sends challenged decrypted responds told in
      let shaken = peer_handshake-run laws our_keypair (some p) peer c₂ w₇ w₈ w₁₁ challenges (
        answer_client-run laws our_keypair (some p) peer theirs c₃ c₂ answer w₈ w₉ w₁₀ w₁₁ opened
          encrypted answers responded same acknowledges) in
      let nobody : w₄.connection.punched_peer ≡ none =
        ap (λ c. c.punched_peer)
          (arrived-kept mediator_socket disconnect w₃ w₄ told
            ∙ sent-kept mediator_socket (advertise_response plain) w₂ w₃ responds
            ∙ arrived-kept mediator_socket (advertise_challenge c₁) w₁ w₂ challenged
            ∙ sent-kept mediator_socket (advertise our_keypair peer) (holding mediator_socket w₀) w₁
                sends)
        ∙ ap (λ c. c.punched_peer)
            (kept _ (begun mediator w) w₀ mediator_socket
              (create_socket-Keeps (from_address mediator.socket_address)) created) in
      let connected =
        connect_as_peer-run our_keypair peer disconnect l (some p) (disconnected disconnect w₄) w₅
          w₆ w₇ w₁₁ w₁₂ refl closed listens accepted shaken unlistened in
      connected-calls our_keypair peer mediator p w (disconnected disconnect w₄) w₁₂ w₁₃ introduced
        (reach-run our_keypair peer disconnect (disconnected disconnect w₄) w₁₂ (some p) nobody refl
          connected)
        destroyed callback object returns there
