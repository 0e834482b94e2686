-- ===== src/Connection/Completion.antt =====
-- The peer handshake against another side that keeps to the protocol.
use p2psc.Prelude.{◌≡◌, subst, ◌∙◌, Bytes, bytes_eq, bytes_eq_refl, some, true}
use p2psc.Crypto.OpenSsl.{OpenSsl, Base64}
use p2psc.Crypto.Key.{Keypair, encrypt, private_decrypt}
use p2psc.Errors
use p2psc.Message.Codec.{JsonLibrary, JsonLaws}
use p2psc.Message.Format.{message}
use p2psc.Message.Payloads.Handshake.{
  PeerChallenge, PeerChallengeResponse, PeerResponse, PeerAcknowledgement, peer_challenge_payload,
  peer_challenge_response_payload, peer_response_payload, peer_acknowledgement_payload,
}
use p2psc.Net.Objects.{SocketPtr, PunchedPeer, Peer}
use p2psc.Net.System.{Os}
use p2psc.Net.Run.{World, ok, ◌>>=◌}
use p2psc.Net.Run.Returns.{bind-eq, lift-bind-eq, catch-bind-eq, pure-eq, guard-eq}
use p2psc.Net.Messages.{send_and_log, receive_and_log}
use p2psc.Net.Messages.Delivery.{Sends, Arrives, receive_and_log-eq}
use p2psc.Mediation.{get_punched_peer}
use p2psc.Connection.{
  generate_nonce, answer_peer, challenge_peer, client_handshake, acknowledge_client,
  challenge_client, answer_client, peer_handshake,
}
use p2psc.Connection.Authentication.{nonce, asserted-bind}

abbrev pub peer_response : Bytes → PeerResponse
peer_response n = record { decrypted_nonce = n }

abbrev pub acknowledgement : PeerAcknowledgement
acknowledgement = record {}

abbrev pub challenge_response : Bytes → Bytes → PeerChallengeResponse
challenge_response cipher plain = record { encrypted_nonce = cipher; decrypted_nonce = plain }

abbrev pub peer_challenge : Bytes → PeerChallenge
peer_challenge cipher = record { encrypted_nonce = cipher }

module _ ⦃j : JsonLibrary⦄ ⦃s : OpenSsl⦄ ⦃b : Base64⦄ ⦃o : Os⦄ (laws : JsonLaws j)
    (our_keypair : Keypair) (socket : SocketPtr) where
  answer_peer-run :
      (n plain : Bytes) (response : PeerChallengeResponse) (w w₁ w₂ : World)
      → response.decrypted_nonce ≡ n
      → private_decrypt our_keypair response.encrypted_nonce ≡ Errors.ok plain
      → Sends socket (peer_response plain) w w₁
      → Arrives socket acknowledgement w₁ w₂
      → answer_peer our_keypair n socket (message response) w ≡ (ok tt, w₂)
  unfolding answer_peer message
  answer_peer-run n plain response w w₁ w₂ same decrypted sends arrives =
      guard-eq _ _ _ w
        (subst (λ x. bytes_eq response.decrypted_nonce x ≡ true) same (bytes_eq_refl _))
      ∙ catch-bind-eq _ plain _ _ w decrypted
      ∙ bind-eq (send_and_log socket (message (peer_response plain))) _ w w₁ tt sends
      ∙ bind-eq (receive_and_log socket) _ w₁ w₂ (message acknowledgement)
          (receive_and_log-eq laws socket acknowledgement w₁ w₂ arrives)
      ∙ pure-eq tt w₂

  challenge_peer-run :
      (n plain cipher : Bytes) (response : PeerChallengeResponse) (w w₁ w₂ w₃ w₄ : World)
      → Sends socket (peer_challenge cipher) w w₁
      → Arrives socket response w₁ w₂
      → response.decrypted_nonce ≡ n
      → private_decrypt our_keypair response.encrypted_nonce ≡ Errors.ok plain
      → Sends socket (peer_response plain) w₂ w₃
      → Arrives socket acknowledgement w₃ w₄
      → challenge_peer our_keypair n socket cipher w ≡ (ok tt, w₄)
  unfolding challenge_peer
  challenge_peer-run n plain cipher response w w₁ w₂ w₃ w₄ challenges responds same decrypted
        answers acknowledges =
      bind-eq (send_and_log socket (message (peer_challenge cipher))) _ w w₁ tt challenges
      ∙ bind-eq (receive_and_log socket) _ w₁ w₂ (message response)
          (receive_and_log-eq laws socket response w₁ w₂ responds)
      ∙ answer_peer-run n plain response w₂ w₃ w₄ same decrypted answers acknowledges

  -- The client's handshake returns where the other side keeps to the protocol: the client sends its
  -- nonce encrypted under the key of the peer that the Mediator named, the response holds the nonce
  -- and another text that the client decrypts and sends back, and an acknowledgement follows.
  pub client_handshake-run :
      (peer : PunchedPeer) (plain cipher : Bytes) (response : PeerChallengeResponse)
      (w w₁ w₂ w₃ w₄ : World)
      → w.connection.punched_peer ≡ some peer
      → encrypt (o.padding w.trace) peer.peer.public_key (nonce w) ≡ Errors.ok cipher
      → Sends socket (peer_challenge cipher) w w₁
      → Arrives socket response w₁ w₂
      → response.decrypted_nonce ≡ nonce w
      → private_decrypt our_keypair response.encrypted_nonce ≡ Errors.ok plain
      → Sends socket (peer_response plain) w₂ w₃
      → Arrives socket acknowledgement w₃ w₄
      → client_handshake our_keypair socket w ≡ (ok tt, w₄)
  unfolding client_handshake generate_nonce get_punched_peer ◌>>=◌
  client_handshake-run peer plain cipher response w w₁ w₂ w₃ w₄ at encrypted challenges responds
        same decrypted answers acknowledges =
      asserted-bind w.connection.punched_peer _ w peer at
      ∙ lift-bind-eq _ cipher (challenge_peer our_keypair (nonce w) socket) w encrypted
      ∙ challenge_peer-run (nonce w) plain cipher response w w₁ w₂ w₃ w₄ challenges responds same
          decrypted answers acknowledges

  -- The peer's part after the client's challenge returns where the client keeps to the protocol:
  -- the peer decrypts the challenge and sends it back with its own nonce encrypted under the
  -- client's key, and the answer holds this nonce.
  pub answer_client-run :
      (peer : Peer) (plain cipher encrypted : Bytes) (answer : PeerResponse) (w w₁ w₂ w₃ : World)
      → private_decrypt our_keypair encrypted ≡ Errors.ok plain
      → encrypt (o.padding w.trace) peer.public_key (nonce w) ≡ Errors.ok cipher
      → Sends socket (challenge_response cipher plain) w w₁
      → Arrives socket answer w₁ w₂
      → answer.decrypted_nonce ≡ nonce w
      → Sends socket acknowledgement w₂ w₃
      → answer_client our_keypair peer socket (message (peer_challenge encrypted)) w ≡ (ok tt, w₃)
  unfolding answer_client challenge_client acknowledge_client generate_nonce message ◌>>=◌
  answer_client-run peer plain cipher encrypted answer w w₁ w₂ w₃ decrypts encrypts responds answers
        same acknowledges =
      lift-bind-eq _ plain _ w decrypts
      ∙ lift-bind-eq _ cipher _ w encrypts
      ∙ bind-eq (send_and_log socket (message (challenge_response cipher plain))) _ w w₁ tt responds
      ∙ bind-eq (receive_and_log socket) _ w₁ w₂ (message answer)
          (receive_and_log-eq laws socket answer w₁ w₂ answers)
      ∙ guard-eq _ _ _ w₂
          (subst (λ x. bytes_eq answer.decrypted_nonce x ≡ true) same (bytes_eq_refl _))
      ∙ acknowledges

  -- The handshake of the peer that waited, from the client's challenge on.
  pub peer_handshake-run :
      (peer : Peer) (cipher : Bytes) (w w₁ w₂ : World)
      → Arrives socket (peer_challenge cipher) w w₁
      → answer_client our_keypair peer socket (message (peer_challenge cipher)) w₁ ≡ (ok tt, w₂)
      → peer_handshake our_keypair peer socket w ≡ (ok tt, w₂)
  unfolding peer_handshake
  peer_handshake-run peer cipher w w₁ w₂ arrives answered =
      bind-eq (receive_and_log socket) _ w w₁ (message (peer_challenge cipher))
        (receive_and_log-eq laws socket (peer_challenge cipher) w w₁ arrives)
      ∙ answered
