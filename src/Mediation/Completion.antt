-- ===== src/Mediation/Completion.antt =====
-- The handshake with a Mediator that keeps to the protocol.
use p2psc.Prelude.{ℕ, suc, ◌≡◌, ap, ◌∙◌, not, true, false, some, Bytes}
use p2psc.Crypto.OpenSsl.{OpenSsl, Base64}
use p2psc.Crypto.Key.{Keypair, private_decrypt}
use p2psc.Errors
use p2psc.Message.Codec.{JsonLibrary, JsonLaws}
use p2psc.Message.Format.{message, encode}
use p2psc.Message.RoundTrip.{decode-encode, decode_message_type-encode}
use p2psc.Message.Payloads.Mediation.{
  AdvertiseChallenge, AdvertiseResponse, PeerDisconnect, PeerIdentification, advertise_payload,
  advertise_challenge_payload, advertise_response_payload, peer_disconnect_payload,
  peer_identification_payload,
}
use p2psc.Net.Objects.{SocketPtr, Peer, PunchedPeer, from_address}
use p2psc.Net.System.{Os}
use p2psc.Net.Run.{World, ok, ◌>>=◌}
use p2psc.Net.Run.Returns.{bind-eq, lift-bind-eq, catch-bind-eq, pure-eq, assert-bind-eq}
use p2psc.Net.Socket.{SocketCreator}
use p2psc.Net.Messages.{receive_raw, send_and_log}
use p2psc.Net.Messages.Delivery.{Sends, Arrives}
use p2psc.Mediation.{
  advertise, on_challenge, on_response, advertise_loop, on_identification, on_disconnect,
  await_peer, answer_challenge, connect, advertise_fuel,
}

abbrev pub advertise_challenge : Bytes → AdvertiseChallenge
advertise_challenge cipher = record { encrypted_nonce = cipher }

abbrev pub advertise_response : Bytes → AdvertiseResponse
advertise_response plain = record { nonce = plain }

-- The object once it has its socket.
abbrev pub holding : SocketPtr → World → World
holding socket w = record w { connection = record w.connection { socket = socket } }

-- The peer that an identification names.
abbrev pub punched : Peer → PeerIdentification → PunchedPeer
punched peer identification = record {
  peer = peer;
  address = record { ip = identification.ip; port = identification.port };
  version = identification.version;
}

-- The object once it has been told of its peer.
abbrev pub identified : Peer → PeerIdentification → World → World
identified peer identification w = record w {
  connection = record w.connection {
    punched_peer = some (punched peer identification);
    connected = true;
  };
}

-- The object once it has been told to wait for its peer.
abbrev pub disconnected : PeerDisconnect → World → World
disconnected disconnect w = record w {
  connection = record w.connection { peer_disconnect = some disconnect; connected = true };
}

module _ ⦃j : JsonLibrary⦄ ⦃s : OpenSsl⦄ ⦃b : Base64⦄ ⦃o : Os⦄ (laws : JsonLaws j)
    (our_keypair : Keypair) (peer : Peer) (socket : SocketPtr) where
  advertise_loop-run :
      (fuel retries : ℕ) (cipher : Bytes) (w w₁ w₂ : World)
      → Sends socket (advertise our_keypair peer) w w₁
      → Arrives socket (advertise_challenge cipher) w₁ w₂
      → advertise_loop our_keypair peer (suc fuel) socket retries w
        ≡ (ok (advertise_challenge cipher), w₂)
  unfolding advertise_loop on_response on_challenge message
  advertise_loop-run fuel retries cipher w w₁ w₂ sends (arrives, fits) =
      let f = (message (advertise_challenge cipher)).format in
      bind-eq (send_and_log socket (message (advertise our_keypair peer))) _ w w₁ tt sends
      ∙ bind-eq (receive_raw socket) _ w₁ w₂ (encode f) arrives
      ∙ lift-bind-eq _ f.type _ w₂ (decode_message_type-encode laws f fits)
      ∙ lift-bind-eq _ f _ w₂ (decode-encode laws f fits)
      ∙ lift-bind-eq _ f _ w₂ (decode-encode laws f fits)
      ∙ pure-eq (advertise_challenge cipher) w₂

  answer_challenge-run :
      (cipher plain : Bytes) (w w₁ : World)
      → private_decrypt our_keypair cipher ≡ Errors.ok plain
      → Sends socket (advertise_response plain) w w₁
      → answer_challenge our_keypair peer socket (advertise_challenge cipher) w ≡ (ok tt, w₁)
  unfolding answer_challenge
  answer_challenge-run cipher plain w w₁ decrypts sends =
      catch-bind-eq _ plain _ _ w decrypts ∙ sends

  await_peer-identified :
      (identification : PeerIdentification) (w w₁ : World)
      → Arrives socket identification w w₁
      → await_peer our_keypair peer socket w ≡ (ok tt, identified peer identification w₁)
  unfolding await_peer on_identification message ◌>>=◌
  await_peer-identified identification w w₁ (arrives, fits) =
      let f = (message identification).format in
      bind-eq (receive_raw socket) _ w w₁ (encode f) arrives
      ∙ lift-bind-eq _ f.type _ w₁ (decode_message_type-encode laws f fits)
      ∙ lift-bind-eq _ f _ w₁ (decode-encode laws f fits)

  await_peer-disconnected :
      (disconnect : PeerDisconnect) (w w₁ : World)
      → Arrives socket disconnect w w₁
      → await_peer our_keypair peer socket w ≡ (ok tt, disconnected disconnect w₁)
  unfolding await_peer on_disconnect message ◌>>=◌
  await_peer-disconnected disconnect w w₁ (arrives, fits) =
      let f = (message disconnect).format in
      bind-eq (receive_raw socket) _ w w₁ (encode f) arrives
      ∙ lift-bind-eq _ f.type _ w₁ (decode_message_type-encode laws f fits)
      ∙ lift-bind-eq _ f _ w₁ (decode-encode laws f fits)

module _ ⦃j : JsonLibrary⦄ ⦃s : OpenSsl⦄ ⦃b : Base64⦄ ⦃o : Os⦄ (laws : JsonLaws j)
    (our_keypair : Keypair) (peer : Peer) (creator : SocketCreator) (socket : SocketPtr) where
  pub connect-awaits :
      (cipher plain : Bytes) (w w₀ w₁ w₂ w₃ : World)
      → w.connection.connected ≡ false
      → creator (from_address w.connection.mediator.socket_address) w ≡ (ok socket, w₀)
      → Sends socket (advertise our_keypair peer) (holding socket w₀) w₁
      → Arrives socket (advertise_challenge cipher) w₁ w₂
      → private_decrypt our_keypair cipher ≡ Errors.ok plain
      → Sends socket (advertise_response plain) w₂ w₃
      → connect our_keypair peer creator w ≡ await_peer our_keypair peer socket w₃
  unfolding connect ◌>>=◌
  connect-awaits cipher plain w w₀ w₁ w₂ w₃ idle created sends arrives decrypts responds =
      assert-bind-eq (not w.connection.connected) _ w (ap not idle)
      ∙ bind-eq (creator (from_address w.connection.mediator.socket_address)) _ w w₀ socket created
      ∙ bind-eq (advertise_loop our_keypair peer advertise_fuel socket 0) _ (holding socket w₀) w₂
          (advertise_challenge cipher)
          (advertise_loop-run laws our_keypair peer socket 5 0 cipher (holding socket w₀) w₁ w₂
            sends arrives)
      ∙ bind-eq (answer_challenge our_keypair peer socket (advertise_challenge cipher)) _ w₂ w₃ tt
          (answer_challenge-run laws our_keypair peer socket cipher plain w₂ w₃ decrypts responds)

  -- The handshake with the Mediator returns where the Mediator keeps to the protocol and names the
  -- peer.
  pub connect-identified :
      (cipher plain : Bytes) (identification : PeerIdentification) (w w₀ w₁ w₂ w₃ w₄ : World)
      → w.connection.connected ≡ false
      → creator (from_address w.connection.mediator.socket_address) w ≡ (ok socket, w₀)
      → Sends socket (advertise our_keypair peer) (holding socket w₀) w₁
      → Arrives socket (advertise_challenge cipher) w₁ w₂
      → private_decrypt our_keypair cipher ≡ Errors.ok plain
      → Sends socket (advertise_response plain) w₂ w₃
      → Arrives socket identification w₃ w₄
      → connect our_keypair peer creator w ≡ (ok tt, identified peer identification w₄)
  connect-identified cipher plain identification w w₀ w₁ w₂ w₃ w₄ idle created sends arrives
        decrypts responds named =
      connect-awaits cipher plain w w₀ w₁ w₂ w₃ idle created sends arrives decrypts responds
      ∙ await_peer-identified laws our_keypair peer socket identification w₃ w₄ named

  -- The same where the Mediator tells the peer to wait.
  pub connect-disconnected :
      (cipher plain : Bytes) (disconnect : PeerDisconnect) (w w₀ w₁ w₂ w₃ w₄ : World)
      → w.connection.connected ≡ false
      → creator (from_address w.connection.mediator.socket_address) w ≡ (ok socket, w₀)
      → Sends socket (advertise our_keypair peer) (holding socket w₀) w₁
      → Arrives socket (advertise_challenge cipher) w₁ w₂
      → private_decrypt our_keypair cipher ≡ Errors.ok plain
      → Sends socket (advertise_response plain) w₂ w₃
      → Arrives socket disconnect w₃ w₄
      → connect our_keypair peer creator w ≡ (ok tt, disconnected disconnect w₄)
  connect-disconnected cipher plain disconnect w w₀ w₁ w₂ w₃ w₄ idle created sends arrives decrypts
        responds told =
      connect-awaits cipher plain w w₀ w₁ w₂ w₃ idle created sends arrives decrypts responds
      ∙ await_peer-disconnected laws our_keypair peer socket disconnect w₃ w₄ told
