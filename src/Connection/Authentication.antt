-- ===== src/Connection/Authentication.antt =====
-- What a side of the peer handshake has seen of the other side's key when it ends well.
use p2psc.Prelude.{◌≡◌, ap, sym, ◌∙◌, Bytes, bytes_eq→eq, to_string, some, arith, none, Option}
use p2psc.Crypto.OpenSsl.{OpenSsl, Base64}
use p2psc.Crypto.Key.{Keypair, encrypt, private_decrypt}
use p2psc.Errors
use p2psc.Message.Codec.{JsonLibrary}
use p2psc.Message.Format.{Payload, Message, MessageFormat, message, decode}
use p2psc.Message.Payloads.Handshake.{
  PeerChallenge, PeerChallengeResponse, PeerResponse, peer_challenge_payload,
  peer_challenge_response_payload, peer_response_payload,
}
use p2psc.Net.Objects.{SocketPtr, PunchedPeer, Peer}
use p2psc.Net.System.{Os}
use p2psc.Net.Run.{World, Outcome, ok, lift, Run, pure, ◌>>=◌}
use p2psc.Net.Run.Returns.{bind-ok, pure-ok, guard-ok, lift-bind-ok}
use p2psc.Net.Messages.{receive_raw, send_and_log, receive_and_log}
use p2psc.Mediation.{get_punched_peer, asserted}
use p2psc.Connection.{
  generate_nonce, answer_peer, challenge_peer, client_handshake, acknowledge_client,
  challenge_client, answer_client,
}

pub asserted-bind :
    {A B : Type 0} (x : Option A) (f : A → Run B) (w : World) (a : A)
    → x ≡ some a
    → (asserted x >>= f) w ≡ f a w
unfolding asserted ◌>>=◌
asserted-bind (some a') f w a e = ground arith
asserted-bind none f w a e = cc

-- The nonce of a thread whose trace is that of `w`.
abbrev pub nonce : ⦃o : Os⦄ → World → Bytes
nonce ⦃o⦄ w = to_string (o.rand (o.time w.trace))

module _ {T : Type 0} ⦃m : Payload T⦄ ⦃j : JsonLibrary⦄ ⦃o : Os⦄ (socket : SocketPtr) where
  -- The next message is `f`, as a message of type `T`.
  abbrev pub Receives : World → MessageFormat T → Type 0
  Receives w f = (raw : Bytes) × ((receive_raw socket w).0 ≡ ok raw) × (decode raw ≡ Errors.ok f)

  decoded-ok :
      (raw : Bytes) (w w' : World) {x : Message T}
      → (receive_raw socket w).0 ≡ ok raw
      → ((lift {A = MessageFormat T} (decode raw) >>= λ f. pure (message f.payload)) w').0 ≡ ok x
      → (f : MessageFormat T) × Receives w f × (x ≡ message f.payload)
  decoded-ok raw w w' e h =
      let (f, decoded, h') = lift-bind-ok (decode raw) _ w' h in
      (f, (raw, e, decoded), pure-ok _ w' h')

  receive_and_log-ok :
      (w : World) {x : Message T}
      → (receive_and_log socket w).0 ≡ ok x
      → (f : MessageFormat T) × Receives w f × (x ≡ message f.payload)
  unfolding receive_and_log
  receive_and_log-ok w h =
      let (raw, received, h') = bind-ok (receive_raw socket) _ w h in
      decoded-ok raw w (receive_raw socket w).1 received h'

module _ ⦃j : JsonLibrary⦄ ⦃s : OpenSsl⦄ ⦃b : Base64⦄ ⦃o : Os⦄ (our_keypair : Keypair)
    (socket : SocketPtr) where
  -- The state after the challenge was sent.
  abbrev pub challenged : Bytes → World → Outcome (Unit {0}) × World
  challenged cipher =
      send_and_log socket (message {T = PeerChallenge} (record { encrypted_nonce = cipher }))

  -- The encrypted nonce was sent, and the next message holds the nonce itself.
  abbrev pub PeerAnswers : Bytes → Bytes → World → Type 0
  PeerAnswers n cipher w =
      (f : MessageFormat PeerChallengeResponse) × ((challenged cipher w).0 ≡ ok tt)
      × Receives socket (challenged cipher w).1 f
      × (f.payload.decrypted_nonce ≡ n)

  answer_peer-eq :
      (n : Bytes) (x : Message PeerChallengeResponse) (w : World)
      → (answer_peer our_keypair n socket x w).0 ≡ ok tt
      → x.format.payload.decrypted_nonce ≡ n
  unfolding answer_peer
  answer_peer-eq n x w h = bytes_eq→eq _ _ (guard-ok _ _ _ w h)

  received-eq :
      (n : Bytes) (w : World)
      → ((receive_and_log socket >>= answer_peer our_keypair n socket) w).0 ≡ ok tt
      → (f : MessageFormat PeerChallengeResponse) × Receives socket w f
        × (f.payload.decrypted_nonce ≡ n)
  unfolding message
  received-eq n w h =
      let (x, received, h') = bind-ok (receive_and_log socket) _ w h in
      let (f, receives, e) = receive_and_log-ok socket w received in
      let equal = answer_peer-eq n x (receive_and_log socket w).1 h' in
      (f, receives, sym (ap (λ y. y.format.payload.decrypted_nonce) e) ∙ equal)

  challenge_peer-PeerAnswers :
      (n cipher : Bytes) (w : World)
      → (challenge_peer our_keypair n socket cipher w).0 ≡ ok tt
      → PeerAnswers n cipher w
  unfolding challenge_peer
  challenge_peer-PeerAnswers n cipher w h =
      let (u, sent, h₁) = bind-ok (challenged cipher) _ w h in
      let (f, receives, e) = received-eq n (challenged cipher w).1 h₁ in (f, sent, receives, e)

  -- Where the Mediator has named the other peer and the client's handshake ends without an
  -- exception, the client sent its nonce encrypted under that peer's public key, and the next
  -- message that it received holds the nonce itself.
  pub client_handshake-PeerAnswers :
      (w : World) (peer : PunchedPeer)
      → w.connection.punched_peer ≡ some peer
      → (client_handshake our_keypair socket w).0 ≡ ok tt
      → (cipher : Bytes) × (encrypt (o.padding w.trace) peer.peer.public_key (nonce w)
          ≡ Errors.ok cipher)
        × PeerAnswers (nonce w) cipher w
  unfolding client_handshake generate_nonce get_punched_peer asserted ◌>>=◌
  client_handshake-PeerAnswers w peer at h =
      let h₁ = sym (ap (λ r. r.0) (asserted-bind w.connection.punched_peer _ w peer at)) ∙ h in
      let (cipher, encrypted, h₂) =
        lift-bind-ok (encrypt (o.padding w.trace) peer.peer.public_key (nonce w))
          (challenge_peer our_keypair (nonce w) socket) w h₁ in
      (cipher, encrypted, challenge_peer-PeerAnswers (nonce w) cipher w h₂)

  -- The state after the answer to the challenge was sent.
  abbrev pub responded : PeerChallengeResponse → World → Outcome (Unit {0}) × World
  responded response = send_and_log socket (message response)

  -- The answer was sent, and the next message holds the nonce itself.
  abbrev pub ClientAnswers : Bytes → PeerChallengeResponse → World → Type 0
  ClientAnswers n response w =
      (f : MessageFormat PeerResponse) × ((responded response w).0 ≡ ok tt)
      × Receives socket (responded response w).1 f
      × (f.payload.decrypted_nonce ≡ n)

  acknowledge_client-eq :
      (n : Bytes) (x : Message PeerResponse) (w : World)
      → (acknowledge_client our_keypair n socket x w).0 ≡ ok tt
      → x.format.payload.decrypted_nonce ≡ n
  unfolding acknowledge_client
  acknowledge_client-eq n x w h = bytes_eq→eq _ _ (guard-ok _ _ _ w h)

  client_received-eq :
      (n : Bytes) (w : World)
      → ((receive_and_log socket >>= acknowledge_client our_keypair n socket) w).0 ≡ ok tt
      → (f : MessageFormat PeerResponse) × Receives socket w f × (f.payload.decrypted_nonce ≡ n)
  unfolding message
  client_received-eq n w h =
      let (x, received, h') = bind-ok (receive_and_log socket) _ w h in
      let (f, receives, e) = receive_and_log-ok socket w received in
      let equal = acknowledge_client-eq n x (receive_and_log socket w).1 h' in
      (f, receives, sym (ap (λ y. y.format.payload.decrypted_nonce) e) ∙ equal)

  challenge_client-ClientAnswers :
      (n : Bytes) (response : PeerChallengeResponse) (w : World)
      → (challenge_client our_keypair n socket response w).0 ≡ ok tt
      → ClientAnswers n response w
  unfolding challenge_client
  challenge_client-ClientAnswers n response w h =
      let (u, sent, h₁) = bind-ok (responded response) _ w h in
      let (f, receives, e) = client_received-eq n (responded response w).1 h₁ in
      (f, sent, receives, e)

  -- Where the peer's part after the client's challenge ends without an exception, the peer sent
  -- what it decrypted of the challenge with a nonce of its own, encrypted under the client's
  -- public key, and the next message that it received holds this nonce itself.
  pub answer_client-ClientAnswers :
      (w : World) (peer : Peer) (challenge : Message PeerChallenge)
      → (answer_client our_keypair peer socket challenge w).0 ≡ ok tt
      → (response : PeerChallengeResponse) × (private_decrypt our_keypair
            challenge.format.payload.encrypted_nonce
          ≡ Errors.ok response.decrypted_nonce)
        × (encrypt (o.padding w.trace) peer.public_key (nonce w)
            ≡ Errors.ok response.encrypted_nonce)
        × ClientAnswers (nonce w) response w
  unfolding answer_client generate_nonce ◌>>=◌
  answer_client-ClientAnswers w peer challenge h =
      let (plain, decrypted, h₁) =
        lift-bind-ok (private_decrypt our_keypair challenge.format.payload.encrypted_nonce) _ w h in
      let (cipher, encrypted, h₂) =
        lift-bind-ok (encrypt (o.padding w.trace) peer.public_key (nonce w))
          (λ c.
            challenge_client our_keypair (nonce w) socket
              (record { encrypted_nonce = c; decrypted_nonce = plain }))
          w h₁ in
      let response : PeerChallengeResponse = record {
        encrypted_nonce = cipher;
        decrypted_nonce = plain;
      } in
      (response, decrypted, encrypted, challenge_client-ClientAnswers (nonce w) response w h₂)
