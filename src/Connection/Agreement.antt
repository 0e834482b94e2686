-- ===== src/Connection/Agreement.antt =====
-- The two sides of the handshake between the peers, run against one another.
use p2psc.Prelude.{◌+◌, ◌≤◌, ◌≡◌, refl, arith, some, Bytes, length, to_string-IsAscii}
use p2psc.Crypto.OpenSsl.{OpenSsl, OpenSslLaws, Base64, Base64Laws}
use p2psc.Crypto.Key.{Keypair, get_serialised_public_key, from_string, encrypt}
use p2psc.Crypto.RoundTrip.{IsUsable}
use p2psc.Crypto.Delivery.{reaches}
use p2psc.Errors
use p2psc.Message.Codec.{JsonLibrary, JsonLaws}
use p2psc.Message.Format.{message}
use p2psc.Message.Payloads.Handshake.{
  peer_challenge_payload, peer_challenge_response_payload, peer_response_payload,
  peer_acknowledgement_payload,
}
use p2psc.Net.Objects.{SocketPtr, PunchedPeer, Peer}
use p2psc.Net.System.{Os}
use p2psc.Net.Run.{World, ok}
use p2psc.Net.Messages.Delivery.{Delivers}
use p2psc.Connection.{client_handshake, peer_handshake}
use p2psc.Connection.Authentication.{nonce}
use p2psc.Connection.Completion.{
  peer_challenge, challenge_response, peer_response, acknowledgement, client_handshake-run,
  answer_client-run, peer_handshake-run,
}

module _ ⦃j : JsonLibrary⦄ ⦃s : OpenSsl⦄ ⦃b : Base64⦄ (client_os peer_os : Os)
    (json_laws : JsonLaws j) {IsPrivate : _} (laws : OpenSslLaws s IsPrivate) (base : Base64Laws b)
    (client_keypair peer_keypair : Keypair) (s_client s_peer : SocketPtr) where
  -- Both sides of the handshake return where each holds a usable key pair, knows the other's public
  -- key from its text, and the network delivers the four messages that they send: `c₁` and `c₂` are
  -- the ciphers that the client and the peer make of their nonces, which leave room for the
  -- padding.
  pub handshakes-Agree :
      (told : PunchedPeer) (known : Peer) (c₁ c₂ : Bytes) (w w₁ w₂ w₃ w₄ v v₁ v₂ v₃ v₄ : World)
      → IsUsable IsPrivate client_keypair
      → IsUsable IsPrivate peer_keypair
      → from_string (get_serialised_public_key peer_keypair) ≡ Errors.ok told.peer.public_key
      → from_string (get_serialised_public_key client_keypair) ≡ Errors.ok known.public_key
      → w.connection.punched_peer ≡ some told
      → length (nonce ⦃o = client_os⦄ w) + 11 ≤ s.rsa_size peer_keypair.pki.key
      → length (nonce ⦃o = peer_os⦄ v₁) + 11 ≤ s.rsa_size client_keypair.pki.key
      → encrypt (client_os.padding w.trace) told.peer.public_key (nonce ⦃o = client_os⦄ w)
        ≡ Errors.ok c₁
      → encrypt (peer_os.padding v₁.trace) known.public_key (nonce ⦃o = peer_os⦄ v₁) ≡ Errors.ok c₂
      → Delivers client_os peer_os s_client s_peer (peer_challenge c₁) w w₁ v v₁
      → Delivers peer_os client_os s_peer s_client
          (challenge_response c₂ (nonce ⦃o = client_os⦄ w))
          v₁
          v₂
          w₁
          w₂
      → Delivers client_os peer_os s_client s_peer
          (peer_response (nonce ⦃o = peer_os⦄ v₁))
          w₂
          w₃
          v₂
          v₃
      → Delivers peer_os client_os s_peer s_client acknowledgement v₃ v₄ w₃ w₄
      → (client_handshake ⦃o = client_os⦄ client_keypair s_client w ≡ (ok tt, w₄))
        × (peer_handshake ⦃o = peer_os⦄ peer_keypair known s_peer v ≡ (ok tt, v₄))
  unfolding message
  handshakes-Agree told known c₁ c₂ w w₁ w₂ w₃ w₄ v v₁ v₂ v₃ v₄ client_usable peer_usable told_key
        known_key at client_room peer_room e₁ e₂ d₁ d₂ d₃ d₄ =
      let client_ascii = to_string-IsAscii (client_os.rand (client_os.time w.trace)) in
      let peer_ascii = to_string-IsAscii (peer_os.rand (peer_os.time v₁.trace)) in
      let (ascii₁, plain₁) =
        reaches laws base peer_keypair told.peer.public_key _ _ c₁ peer_usable told_key client_ascii
          client_room e₁ in
      let (ascii₂, plain₂) =
        reaches laws base client_keypair known.public_key _ _ c₂ client_usable known_key peer_ascii
          peer_room e₂ in
      (
        client_handshake-run ⦃o = client_os⦄ json_laws client_keypair s_client told
            (nonce ⦃o = peer_os⦄ v₁) c₁ (challenge_response c₂ (nonce ⦃o = client_os⦄ w)) w w₁ w₂ w₃
            w₄ at e₁ d₁.0 (d₂.1, (omega arith, (ascii₂, (client_ascii, tt)))) refl plain₂ d₃.0
            (d₄.1, (omega arith, tt)),
        peer_handshake-run ⦃o = peer_os⦄ json_laws peer_keypair s_peer known c₁ v v₁ v₄
            (d₁.1, (omega arith, (ascii₁, tt)))
            (answer_client-run ⦃o = peer_os⦄ json_laws peer_keypair s_peer known
              (nonce ⦃o = client_os⦄ w) c₂ c₁ (peer_response (nonce ⦃o = peer_os⦄ v₁)) v₁ v₂ v₃ v₄
              plain₁ e₂ d₂.0 (d₃.1, (omega arith, (peer_ascii, tt))) refl d₄.0),
      )
