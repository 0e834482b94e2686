-- ===== src/Integration/ClientTest/Passing.antt =====
-- Two test cases of integration/src/client_it.cpp, on the messages of a client and the Mediator.
use p2psc.Prelude.{
  ℕ, ◌≤◌, ◌≡◌, refl, arith, true, false, ◌++◌, [], ◌∷◌, Bytes, to_string, to_string-IsAscii,
  bytes_eq_refl,
}
use p2psc.Errors.{Exception, ok}
use p2psc.Crypto.OpenSsl.{OpenSsl, Base64, OpenSslLaws, Base64Laws, IsAscii}
use p2psc.Crypto.Rsa.{Rsa, from_public_key, public_encrypt}
use p2psc.Crypto.Key.{Keypair, get_serialised_public_key, serialise, private_decrypt}
use p2psc.Crypto.RoundTrip.{IsUsable}
use p2psc.Message.Types.{MessageType, type_advertise, type_advertise_response}
use p2psc.Message.Codec.{JsonLibrary, JsonLaws}
use p2psc.Message.Format.{message}
use p2psc.Message.RoundTrip.{decode-encode}
use p2psc.Message.Payloads.Mediation.{
  Advertise, AdvertiseResponse, advertise_payload, advertise_challenge_payload,
  advertise_response_payload,
}
use p2psc.Net.Objects.{SocketAddress, SocketPtr, Peer, Mediator, from_address}
use p2psc.Net.System.{Os}
use p2psc.Net.Run
use p2psc.Net.Run.{World, Outcome}
use p2psc.Net.Run.Written.{whole}
use p2psc.Net.Socket.{create_socket}
use p2psc.Net.Messages.{receive_raw}
use p2psc.Net.Messages.Delivery.{Sends}
use p2psc.Mediation
use p2psc.Mediation.Sent.{connect-first_sent, connect-both_sent}
use p2psc.Mediation.{advertise}
use p2psc.Mediation.Completion.{advertise_challenge, advertise_response, holding}
use p2psc.Integration.Handle.{FakeMediator}
use p2psc.Integration.FakeMediator.{
  new, finished, challenging, awaiting_response, on_advertise, challenge, on_response,
}
use p2psc.Integration.FakeMediator.System.{request_quit}
use p2psc.Integration.FakeMediator.Challenge.{challenged, challenge-eq}
use p2psc.Integration.FakeMediator.Introduction.{
  heard, text_of, on_advertise-run, on_advertise-quits, on_response-quits, advertise-Fits,
  challenge-plain,
}
use p2psc.Integration.ClientTest.{
  should_send_valid_advertise, valid_advertise, should_correctly_prove_identity_with_nonce,
  proven_identity,
}

module _ ⦃j : JsonLibrary⦄ ⦃s : OpenSsl⦄ ⦃b : Base64⦄ ⦃o : Os⦄ (json : JsonLaws j)
    {IsPrivate : ℕ → Type 0} (laws : OpenSslLaws s IsPrivate) (base : Base64Laws b)
    (our_keypair : Keypair) (peer : Peer) (address : SocketAddress) (mediator : Mediator)
    (memory : MessageType) where
  abbrev pub ours : Advertise
  ours = advertise our_keypair peer

  advertise-valid : valid_advertise (text_of ours ∷ []) [] our_keypair peer.public_key ≡ ok true
  unfolding valid_advertise message advertise
  advertise-valid =
      rw
        (decode-encode json (message ours).format
          (advertise-Fits json laws base our_keypair peer address))
        (rw (bytes_eq_refl (get_serialised_public_key our_keypair))
          (rw (bytes_eq_refl (serialise peer.public_key)) refl))

  identity-proven :
      (cipher plain first : Bytes)
      → IsAscii cipher
      → IsAscii plain
      → private_decrypt our_keypair cipher ≡ ok plain
      → proven_identity
          (first ∷ text_of (advertise_response plain) ∷ [])
          (text_of (advertise_challenge cipher) ∷ [])
          our_keypair
        ≡ ok true
  unfolding proven_identity message
  identity-proven cipher plain first ascii plain_ascii decrypts =
      rw
        (decode-encode json (message (advertise_challenge cipher)).format
          (omega arith, (ascii, tt)))
        (rw
          (decode-encode json (message (advertise_response plain)).format
            (omega arith, (plain_ascii, tt)))
          (rw decrypts (rw (bytes_eq_refl plain) refl)))

  -- A new Mediator that is to quit after a message.
  abbrev pub quitting_after : MessageType → FakeMediator
  quitting_after type = request_quit type (new mediator memory)

  abbrev pub answer : AdvertiseResponse
  answer = advertise_response (to_string 1337)

  -- The library's handshake with the Mediator, on a socket of the operating system.
  abbrev client : World → Outcome (Unit {0}) × World
  client = Mediation.connect our_keypair peer create_socket

  -- Two test cases, of a client whose key pair is usable and leaves room for the nonce. Where the
  -- Mediator quits after the client's first message and the client's next `receive` throws, the one
  -- message that the library's handshake hands to the system passes the assertions of `ShouldSendValidAdvertise`. Where
  -- the Mediator quits after the client's second message, and its challenge arrives, the two messages
  -- that the handshake hands to the system, whatever arrives later, take the Mediator to its end and
  -- pass, with the challenge, those of `ShouldCorrectlyProveIdentityWithNonce`. The system makes the
  -- connection and takes the messages; `cipher` is what the Mediator makes of its nonce.
  pub test_cases-pass :
      (pad : ℕ) (r : Rsa) (cipher : Bytes) (socket : SocketPtr) (e : Exception)
      (w w₀ w₁ w₂ v v₀ v₁ v₂ v₃ : World)
      → IsUsable IsPrivate our_keypair
      → 15 ≤ s.rsa_size our_keypair.pki.key
      → from_public_key (get_serialised_public_key our_keypair) ≡ ok r
      → public_encrypt pad r (to_string 1337) ≡ ok cipher
      → w.connection.connected ≡ false
      → create_socket (from_address w.connection.mediator.socket_address) w ≡ (Run.ok socket, w₀)
      → Sends socket ours (holding socket w₀) w₁
      → receive_raw socket w₁ ≡ (Run.throw e, w₂)
      → v.connection.connected ≡ false
      → create_socket (from_address v.connection.mediator.socket_address) v ≡ (Run.ok socket, v₀)
      → Sends socket ours (holding socket v₀) v₁
      → receive_raw socket v₁ ≡ (Run.ok (text_of (advertise_challenge cipher)), v₂)
      → Sends socket answer v₂ v₃
      → let m = quitting_after type_advertise in
        let n = quitting_after type_advertise_response in
        ((sent : Bytes) × (whole (client w).1.trace ≡ whole w.trace ++ (sent ∷ []))
          × (on_advertise address (ok sent) m ≡ (ok finished, heard sent m))
          × (should_send_valid_advertise (heard sent m) our_keypair peer.public_key ≡ ok true))
        × ((first second : Bytes) × (whole (client v).1.trace
              ≡ whole v.trace ++ (first ∷ second ∷ []))
            × (on_advertise address (ok first) n ≡ (ok (challenging ours), heard first n))
            × (challenge address ours pad (ok tt) (heard first n)
                ≡ (ok (awaiting_response ours), challenged address ours (heard first n) cipher))
            × (on_response address ours (ok second) (challenged address ours (heard first n) cipher)
                ≡ (ok finished, heard second (challenged address ours (heard first n) cipher)))
            × (should_correctly_prove_identity_with_nonce
                  (heard second (challenged address ours (heard first n) cipher))
                  our_keypair
                ≡ ok true))
  unfolding should_send_valid_advertise should_correctly_prove_identity_with_nonce request_quit new
      advertise message
  test_cases-pass pad r cipher socket e w w₀ w₁ w₂ v v₀ v₁ v₂ v₃ usable room key encrypted idle
        created sends refused idle' created' sends' arrives answers =
      let (ascii, decrypted) =
        challenge-plain json laws base our_keypair peer address pad r cipher usable room key
          encrypted in
      let plain_ascii : IsAscii (to_string 1337) = to_string-IsAscii 1337 in
      let fits = advertise-Fits json laws base our_keypair peer address in
      let m = quitting_after type_advertise in
      let n = quitting_after type_advertise_response in
      let n₁ = heard (text_of ours) n in
      (
        (
          text_of ours,
          connect-first_sent our_keypair peer socket e w w₀ w₁ w₂ idle created sends refused,
          on_advertise-quits json address ours m fits refl,
          advertise-valid,
        ),
        (
          text_of ours,
          text_of answer,
          connect-both_sent our_keypair peer socket json cipher (to_string 1337) v v₀ v₁ v₂ v₃ idle'
              created' sends' (arrives, (omega arith, (ascii, tt))) decrypted answers,
          on_advertise-run json address ours n fits refl refl,
          challenge-eq address ours n₁ pad r cipher key encrypted refl,
          on_response-quits json address ours (challenged address ours n₁ cipher) (to_string 1337)
              (omega arith, (plain_ascii, tt)) refl,
          identity-proven cipher (to_string 1337) (text_of ours) ascii plain_ascii decrypted,
        ),
      )
