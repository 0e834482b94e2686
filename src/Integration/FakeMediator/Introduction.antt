-- ===== src/Integration/FakeMediator/Introduction.antt =====
-- The library's handshake with the Mediator, run against the Mediator of the tests.
use p2psc.Prelude.{
  ℕ, ◌≤◌, ◌≡◌, refl, arith, true, false, [], ◌∷◌, ◌++◌, Bytes, to_string, to_string-IsAscii, ltb,
  ◌==◌,
}
use p2psc.Errors
use p2psc.Crypto.OpenSsl.{OpenSsl, Base64, OpenSslLaws, Base64Laws, IsAscii}
use p2psc.Crypto.Rsa.{Rsa, from_public_key, public_encrypt, get_public_key_string}
use p2psc.Crypto.Key.{
  Keypair, get_serialised_public_key, serialise, from_string, encrypt, private_decrypt,
}
use p2psc.Crypto.RoundTrip.{IsUsable}
use p2psc.Crypto.Delivery.{reaches}
use p2psc.Message.Types.{type_advertise, type_advertise_challenge, type_advertise_response}
use p2psc.Message.Codec.{JsonLibrary, JsonLaws}
use p2psc.Message.Format.{Payload, message, encode}
use p2psc.Message.RoundTrip.{Fits, decode-encode}
use p2psc.Message.Payloads.Mediation.{
  Advertise, AdvertiseResponse, PeerIdentification, advertise_payload, advertise_challenge_payload,
  advertise_response_payload, peer_identification_payload,
}
use p2psc.Net.Objects.{SocketPtr, SocketAddress, Peer, from_address}
use p2psc.Net.System.{Os}
use p2psc.Net.Run.{World}
use p2psc.Net.Run
use p2psc.Net.Socket.{SocketCreator}
use p2psc.Net.Messages.{receive_raw}
use p2psc.Net.Messages.Delivery.{Sends}
use p2psc.Mediation
use p2psc.Mediation.{version, advertise}
use p2psc.Mediation.Completion.{
  advertise_challenge, advertise_response, holding, connect-identified,
}
use p2psc.Mediation.Completion
use p2psc.Integration.Store.{PeerIdentifier}
use p2psc.Integration.Handle.{FakeMediator, ◌>>=◌}
use p2psc.Integration.FakeMediator.{
  finished, challenging, awaiting_response, looking_up, identified, on_advertise, challenge,
  on_response, identify, send_and_log, receive_and_log, quit_if_requested,
}
use p2psc.Integration.FakeMediator.Challenge.{challenged, challenge-eq, digits_lem}

-- The Mediator after it has received and after it has sent a text.
abbrev pub heard : Bytes → FakeMediator → FakeMediator
heard text m = record m { received_messages = m.received_messages ++ (text ∷ []) }

abbrev pub said : Bytes → FakeMediator → FakeMediator
said text m = record m { sent_messages = m.sent_messages ++ (text ∷ []) }

-- What the Mediator says of a registered peer.
abbrev pub identification : PeerIdentifier → PeerIdentification
identification p = record {
  version = p.version;
  ip = p.socket_address.ip;
  port = p.socket_address.port;
}

module _ ⦃j : JsonLibrary⦄ where
  abbrev pub text_of : {T : Type 0} ⦃m : Payload T⦄ → T → Bytes
  text_of payload = encode (message payload).format

module _ ⦃j : JsonLibrary⦄ ⦃s : OpenSsl⦄ ⦃b : Base64⦄ (json : JsonLaws j) (address : SocketAddress)
    (a : Advertise) (m : FakeMediator) where
  pub on_advertise-run :
      Fits (message a).format
      → (type_advertise == m.quit_after) ≡ false
      → ltb a.version m.protocol_version ≡ false
      → on_advertise address (Errors.ok (text_of a)) m
        ≡ (Errors.ok (challenging a), heard (text_of a) m)
  unfolding on_advertise receive_and_log quit_if_requested message ◌>>=◌
  on_advertise-run fits quit supported =
      rw (decode-encode json (message a).format fits) (rw quit (rw supported refl))

  pub on_advertise-quits :
      Fits (message a).format
      → (type_advertise == m.quit_after) ≡ true
      → on_advertise address (Errors.ok (text_of a)) m ≡ (Errors.ok finished, heard (text_of a) m)
  unfolding on_advertise receive_and_log quit_if_requested message ◌>>=◌
  on_advertise-quits fits quit = rw (decode-encode json (message a).format fits) (rw quit refl)

  pub on_response-quits :
      (plain : Bytes)
      → Fits (message (advertise_response plain)).format
      → (type_advertise_response == m.quit_after) ≡ true
      → on_response address a (Errors.ok (text_of (advertise_response plain))) m
        ≡ (Errors.ok finished, heard (text_of (advertise_response plain)) m)
  unfolding on_response receive_and_log quit_if_requested message ◌>>=◌
  on_response-quits plain fits quit =
      rw (decode-encode json (message (advertise_response plain)).format fits) (rw quit refl)

  on_response-run :
      (plain : Bytes)
      → Fits (message (advertise_response plain)).format
      → (type_advertise_response == m.quit_after) ≡ false
      → on_response address a (Errors.ok (text_of (advertise_response plain))) m
        ≡ (Errors.ok (looking_up a), heard (text_of (advertise_response plain)) m)
  unfolding on_response receive_and_log quit_if_requested message ◌>>=◌
  on_response-run plain fits quit =
      rw (decode-encode json (message (advertise_response plain)).format fits) (rw quit refl)

  identify-run :
      (p : PeerIdentifier)
      → identify address a p (Errors.ok tt) m
        ≡ (Errors.ok (identified a p), said (text_of (identification p)) m)
  unfolding identify send_and_log message ◌>>=◌
  identify-run p = refl

module _ ⦃j : JsonLibrary⦄ ⦃s : OpenSsl⦄ ⦃b : Base64⦄ ⦃o : Os⦄ (json : JsonLaws j)
    {IsPrivate : ℕ → Type 0} (laws : OpenSslLaws s IsPrivate) (base : Base64Laws b)
    (our_keypair : Keypair) (peer : Peer) (address : SocketAddress) where
  from_public_key→from_string :
      (text : Bytes) (r : Rsa)
      → from_public_key text ≡ Errors.ok r
      → from_string text ≡ Errors.ok (record { pki = r })
  unfolding from_string
  from_public_key→from_string text r e = ground (arith, e)

  -- Our own message fits its members.
  pub advertise-Fits : Fits (message (advertise our_keypair peer)).format
  unfolding message advertise get_serialised_public_key serialise get_public_key_string
  advertise-Fits = (omega arith, (omega arith, (laws.write-IsAscii _, (laws.write-IsAscii _, tt))))

  pub challenge-plain :
      (pad : ℕ) (r : Rsa) (cipher : Bytes)
      → IsUsable IsPrivate our_keypair
      → 15 ≤ s.rsa_size our_keypair.pki.key
      → from_public_key (get_serialised_public_key our_keypair) ≡ Errors.ok r
      → public_encrypt pad r (to_string 1337) ≡ Errors.ok cipher
      → IsAscii cipher × (private_decrypt our_keypair cipher ≡ Errors.ok (to_string 1337))
  unfolding encrypt
  challenge-plain pad r cipher usable room key encrypted =
      reaches laws base our_keypair (record { pki = r }) pad (to_string 1337) cipher usable
        (from_public_key→from_string _ r key) (to_string-IsAscii 1337) (omega (arith, digits_lem.1))
        encrypted

  abbrev pub ours : Advertise
  ours = advertise our_keypair peer

  abbrev pub answer : AdvertiseResponse
  answer = advertise_response (to_string 1337)

  -- The handshake with the Mediator, by the library on one side and by the tests' Mediator on the
  -- other: a client with a usable key pair, whose key leaves room for the nonce, and a Mediator that
  -- supports the client's version and is to quit at none of the three messages. Where the network
  -- delivers the messages, the Mediator challenges the client, accepts its answer and, once it has
  -- found a peer, names it; and the client's handshake returns with the address and the version of
  -- that peer. `cipher` is what the Mediator makes of its nonce.
  pub introduction-Agrees :
      (pad : ℕ) (r : Rsa) (cipher : Bytes) (p : PeerIdentifier) (m m' : FakeMediator)
      (creator : SocketCreator) (socket : SocketPtr) (w w₀ w₁ w₂ w₃ w₄ : World)
      → IsUsable IsPrivate our_keypair
      → 15 ≤ s.rsa_size our_keypair.pki.key
      → from_public_key (get_serialised_public_key our_keypair) ≡ Errors.ok r
      → public_encrypt pad r (to_string 1337) ≡ Errors.ok cipher
      → Fits (message (identification p)).format
      → ltb version m.protocol_version ≡ false
      → (type_advertise == m.quit_after) ≡ false
      → (type_advertise_challenge == m.quit_after) ≡ false
      → (type_advertise_response == m.quit_after) ≡ false
      → w.connection.connected ≡ false
      → creator (from_address w.connection.mediator.socket_address) w ≡ (Run.ok socket, w₀)
      → Sends socket ours (holding socket w₀) w₁
      → receive_raw socket w₁ ≡ (Run.ok (text_of (advertise_challenge cipher)), w₂)
      → Sends socket answer w₂ w₃
      → receive_raw socket w₃ ≡ (Run.ok (text_of (identification p)), w₄)
      → let m₁ = heard (text_of ours) m in
        let m₂ = challenged address ours m₁ cipher in
        (on_advertise address (Errors.ok (text_of ours)) m ≡ (Errors.ok (challenging ours), m₁))
        × (challenge address ours pad (Errors.ok tt) m₁ ≡ (Errors.ok (awaiting_response ours), m₂))
        × (on_response address ours (Errors.ok (text_of answer)) m₂
            ≡ (Errors.ok (looking_up ours), heard (text_of answer) m₂))
        × (identify address ours p (Errors.ok tt) m'
            ≡ (Errors.ok (identified ours p), said (text_of (identification p)) m'))
        × (Mediation.connect our_keypair peer creator w
            ≡ (Run.ok tt, Completion.identified peer (identification p) w₄))
  unfolding message advertise
  introduction-Agrees pad r cipher p m m' creator socket w w₀ w₁ w₂ w₃ w₄ usable room key encrypted
        fits supported quit₁ quit₂ quit₃ idle created sends challenged_by answers named =
      let (ascii, plain) = challenge-plain pad r cipher usable room key encrypted in
      let m₁ = heard (text_of ours) m in
      (
        on_advertise-run json address ours m advertise-Fits quit₁ supported,
        challenge-eq address ours m₁ pad r cipher key encrypted quit₂,
        on_response-run json address ours (challenged address ours m₁ cipher) (to_string 1337)
            (omega arith, (to_string-IsAscii 1337, tt)) quit₃,
        identify-run json address ours m' p,
        connect-identified json our_keypair peer creator socket cipher (to_string 1337)
            (identification p) w w₀ w₁ w₂ w₃ w₄ idle created sends
            (challenged_by, (omega arith, (ascii, tt))) plain answers (named, fits),
      )
