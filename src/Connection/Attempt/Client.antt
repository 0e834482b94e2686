-- ===== src/Connection/Attempt/Client.antt =====
-- The attempt of a peer that is told to connect, where the others keep to the protocol.
use p2psc.Prelude.{ℕ, ◌≡◌, refl, ap, ◌∙◌, some, ◌∷◌, Bytes, get_elem?, ==_iff}
use p2psc.Crypto.OpenSsl.{OpenSsl, Base64}
use p2psc.Crypto.Key.{Keypair, encrypt, private_decrypt}
use p2psc.Errors
use p2psc.Errors.{unset}
use p2psc.Message.Codec.{JsonLibrary, JsonLaws}
use p2psc.Message.Payloads.Mediation.{
  PeerIdentification, advertise_payload, advertise_challenge_payload, advertise_response_payload,
  peer_identification_payload,
}
use p2psc.Message.Payloads.Handshake.{
  PeerChallengeResponse, peer_challenge_payload, peer_challenge_response_payload,
  peer_response_payload, peer_acknowledgement_payload,
}
use p2psc.Net.Objects.{Socket, SocketPtr, Peer, PunchedPeer, Mediator, from_address}
use p2psc.Net.System.{Os}
use p2psc.Net.Run.{World, Run, ok, pure, ◌>>=◌}
use p2psc.Net.Run.Returns.{bind-eq, pure-eq, guard-eq, catch-eq, on_exception-eq}
use p2psc.Net.Socket.{create_socket}
use p2psc.Net.Run.Keeping.{kept}
use p2psc.Net.Socket.Keeping.{create_socket-Keeps}
use p2psc.Connection.Attempt.{begun, close_socket-Keeps, connected-calls}
use p2psc.Net.Messages.{release}
use p2psc.Net.Messages.Delivery.{Sends, Arrives}
use p2psc.Mediation
use p2psc.Mediation.{version, advertise, get_punched_peer, asserted, close_socket, has_punched_peer}
use p2psc.Mediation.Completion.{
  advertise_challenge, advertise_response, holding, punched, identified, connect-identified,
}
use p2psc.Connection.{Callback, require_version, reach_peer, connect_as_client, reach, start}
use p2psc.Connection.Authentication.{nonce, asserted-bind}
use p2psc.Connection.Completion.{
  peer_challenge, peer_response, acknowledgement, client_handshake-run,
}
use p2psc.Connection.Callback.{calls, Returns}

module _ ⦃o : Os⦄ where
  get_punched_peer-bind :
      {A : Type 0} (told : PunchedPeer) (f : PunchedPeer → Run A) (w : World)
      → w.connection.punched_peer ≡ some told
      → (get_punched_peer >>= f) w ≡ f told w
  unfolding get_punched_peer ◌>>=◌
  get_punched_peer-bind told f w at = asserted-bind w.connection.punched_peer f w told at

  reach_peer-run :
      (told : PunchedPeer) (socket : SocketPtr) (w w' : World)
      → w.connection.punched_peer ≡ some told
      → create_socket (from_address told.address) w ≡ (ok socket, w')
      → reach_peer create_socket w ≡ (ok socket, w')
  unfolding reach_peer
  reach_peer-run told socket w w' at created =
      catch-eq _ w w' socket (get_punched_peer-bind told _ w at ∙ created) _

  require_version-run :
      (told : PunchedPeer) (w : World)
      → told.version ≡ version
      → require_version told w ≡ (ok tt, w)
  unfolding require_version
  require_version-run told w same =
      guard-eq _ _ (pure tt) w ((==_iff told.version version).1 same) ∙ pure-eq tt w

module _ ⦃j : JsonLibrary⦄ ⦃s : OpenSsl⦄ ⦃b : Base64⦄ ⦃o : Os⦄ (laws : JsonLaws j)
    (our_keypair : Keypair) (told : PunchedPeer) (socket : SocketPtr) where
  -- `told` is the peer that the Mediator has named; `w` is the state before the Mediator's socket is
  -- closed, `w₁` after that, `w₂` with the peer's socket.
  connect_as_client-run :
      (plain cipher : Bytes) (response : PeerChallengeResponse) (w w₁ w₂ w₃ w₄ w₅ w₆ : World)
      → w.connection.punched_peer ≡ some told
      → told.version ≡ version
      → close_socket w ≡ (ok tt, w₁)
      → create_socket (from_address told.address) w₁ ≡ (ok socket, w₂)
      → encrypt (o.padding w₂.trace) told.peer.public_key (nonce w₂) ≡ Errors.ok cipher
      → Sends socket (peer_challenge cipher) w₂ w₃
      → Arrives socket response w₃ w₄
      → response.decrypted_nonce ≡ nonce w₂
      → private_decrypt our_keypair response.encrypted_nonce ≡ Errors.ok plain
      → Sends socket (peer_response plain) w₄ w₅
      → Arrives socket acknowledgement w₅ w₆
      → connect_as_client our_keypair create_socket w ≡ (ok socket, w₆)
  unfolding connect_as_client
  connect_as_client-run plain cipher response w w₁ w₂ w₃ w₄ w₅ w₆ at same closed created encrypted
        challenges responds echoed decrypted answers acknowledges =
      let at₁ : w₁.connection.punched_peer ≡ some told =
        ap (λ c. c.punched_peer) (kept close_socket w w₁ tt close_socket-Keeps closed) ∙ at in
      let at₂ : w₂.connection.punched_peer ≡ some told =
        ap (λ c. c.punched_peer)
          (kept _ w₁ w₂ socket (create_socket-Keeps (from_address told.address)) created)
        ∙ at₁ in
      bind-eq close_socket _ w w₁ tt closed
      ∙ get_punched_peer-bind told _ w₁ at₁
      ∙ bind-eq (require_version told) _ w₁ w₁ tt (require_version-run told w₁ same)
      ∙ bind-eq (reach_peer create_socket) _ w₁ w₂ socket
          (reach_peer-run told socket w₁ w₂ at₁ created)
      ∙ bind-eq _ _ w₂ w₆ tt (
          on_exception-eq _ w₂ w₆ tt
            (client_handshake-run laws our_keypair socket told plain cipher response w₂ w₃ w₄ w₅ w₆
              at₂ encrypted challenges responds echoed decrypted answers acknowledges)
            (release socket))
      ∙ pure-eq socket w₆

module _ ⦃j : JsonLibrary⦄ ⦃s : OpenSsl⦄ ⦃b : Base64⦄ ⦃o : Os⦄ (laws : JsonLaws j)
    (our_keypair : Keypair) (peer : Peer) (mediator : Mediator) where
  reach-run :
      (identification : PeerIdentification) (w w' : World) (socket : SocketPtr)
      → connect_as_client our_keypair create_socket (identified peer identification w)
        ≡ (ok socket, w')
      → reach our_keypair peer create_socket (identified peer identification w) ≡ (ok socket, w')
  unfolding reach has_punched_peer ◌>>=◌
  reach-run identification w w' socket client = client

  -- A whole attempt of a client calls the user's function once, with the socket and no error, where
  -- the system makes the two connections, the Mediator challenges our key and names a peer of our
  -- version, that peer's side of the handshake follows the protocol, and what is sent arrives. The
  -- user's function has to return. `c₁` is what the Mediator encrypts and `c₂` the cipher of our
  -- nonce; the states are those after each call of the system.
  pub start-run :
      (callback : Callback) (plain c₁ c₂ answer : Bytes) (identification : PeerIdentification)
      (response : PeerChallengeResponse) (mediator_socket : SocketPtr) (p : ℕ) (object : Socket)
      (w w₀ w₁ w₂ w₃ w₄ w₅ w₆ w₇ w₈ w₉ w₁₀ w₁₁ : World)
      → Returns callback
      → create_socket (from_address mediator.socket_address) (begun mediator w)
        ≡ (ok mediator_socket, w₀)
      → Sends mediator_socket (advertise our_keypair peer) (holding mediator_socket w₀) w₁
      → Arrives mediator_socket (advertise_challenge c₁) w₁ w₂
      → private_decrypt our_keypair c₁ ≡ Errors.ok plain
      → Sends mediator_socket (advertise_response plain) w₂ w₃
      → Arrives mediator_socket identification w₃ w₄
      → identification.version ≡ version
      → close_socket (identified peer identification w₄) ≡ (ok tt, w₅)
      → create_socket (from_address (punched peer identification).address) w₅ ≡ (ok (some p), w₆)
      → encrypt (o.padding w₆.trace) peer.public_key (nonce w₆) ≡ Errors.ok c₂
      → Sends (some p) (peer_challenge c₂) w₆ w₇
      → Arrives (some p) response w₇ w₈
      → response.decrypted_nonce ≡ nonce w₆
      → private_decrypt our_keypair response.encrypted_nonce ≡ Errors.ok answer
      → Sends (some p) (peer_response answer) w₈ w₉
      → Arrives (some p) acknowledgement w₉ w₁₀
      → Mediation.destroy w₁₀ ≡ (ok tt, w₁₁)
      → get_elem? w₁₁.sockets p ≡ some object
      → calls (start our_keypair peer mediator callback w).1.trace ≡ (unset, some p) ∷ calls w.trace
  unfolding Mediation.new
  start-run callback plain c₁ c₂ answer identification response mediator_socket p object w w₀ w₁ w₂
        w₃ w₄ w₅ w₆ w₇ w₈ w₉ w₁₀ w₁₁ returns created sends challenged decrypted responds named same
        closed reached encrypted challenges echoes echoed answered answers acknowledged destroyed
        there =
      let introduced =
        connect-identified laws our_keypair peer create_socket mediator_socket c₁ plain
          identification (begun mediator w) w₀ w₁ w₂ w₃ w₄ refl created sends challenged decrypted
          responds named in
      let client =
        connect_as_client-run laws our_keypair (punched peer identification) (some p) answer c₂
          response (identified peer identification w₄) w₅ w₆ w₇ w₈ w₉ w₁₀ refl same closed reached
          encrypted challenges echoes echoed answered answers acknowledged in
      connected-calls our_keypair peer mediator p w (identified peer identification w₄) w₁₀ w₁₁
        introduced (reach-run identification w₄ w₁₀ (some p) client) destroyed callback object
        returns there
