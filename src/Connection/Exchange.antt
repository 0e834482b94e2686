-- ===== src/Connection/Exchange.antt =====
-- What each side of the handshake between the peers has sent when it returns.
use p2psc.Prelude.{◌≡◌, refl, ap, Option, none, some, [], ◌∷◌, ◌++◌, ◌∙◌, List, Bytes}
use p2psc.Errors.{Exception, crypto_exception}
use p2psc.Crypto.OpenSsl.{OpenSsl, Base64}
use p2psc.Crypto.Key.{Keypair}
use p2psc.Message.Codec.{JsonLibrary}
use p2psc.Message.Format.{Payload, Message, message, encode}
use p2psc.Message.Payloads.Handshake.{
  PeerChallengeResponse, PeerResponse, peer_challenge_payload, peer_challenge_response_payload,
  peer_response_payload, peer_acknowledgement_payload,
}
use p2psc.Net.Objects.{SocketPtr, Peer, PunchedPeer}
use p2psc.Net.System.{Os}
use p2psc.Net.Run.{World, ok}
use p2psc.Net.Run.Written.{
  whole, Quiet, Writes, Quiet-pure, Quiet-raise, Quiet-lift, Quiet-ask, Quiet-gets, Quiet-stop,
  Quiet-bind, Quiet-catch, Writes-quiet, Writes-raise, Writes-if, Writes-rest, Writes-first,
  quiet_rules,
}
use p2psc.Net.Messages.Written.{send_and_log-Writes, receive_and_log-Quiet}
use p2psc.Mediation.{crypto_to_runtime, get_punched_peer, asserted}
use p2psc.Connection.{
  generate_nonce, answer_peer, challenge_peer, client_handshake, acknowledge_client,
  challenge_client, answer_client, peer_handshake,
}
use p2psc.Connection.Completion.{peer_challenge, challenge_response, peer_response, acknowledgement}

module _ ⦃j : JsonLibrary⦄ where
  -- The text of a message with this payload.
  abbrev pub text_of : {T : Type 0} ⦃m : Payload T⦄ → T → Bytes
  text_of payload = encode (message payload).format

  -- The client's two messages.
  abbrev pub ClientSent : List Bytes → Type 0
  ClientSent l =
      (cipher plain : Bytes) × (l
        ≡ text_of (peer_challenge cipher) ∷ text_of (peer_response plain) ∷ [])

  -- The two messages of the peer that has waited.
  abbrev pub PeerSent : List Bytes → Type 0
  PeerSent l =
      (cipher plain : Bytes) × (l
        ≡ text_of (challenge_response cipher plain) ∷ text_of acknowledgement ∷ [])

crypto_to_runtime-Quiet :
    {A : Type 0} (what : Bytes) (e : Exception) → Quiet (crypto_to_runtime {A = A} what e)
unfolding crypto_to_runtime
crypto_to_runtime-Quiet what (crypto_exception x) = Quiet-raise _
crypto_to_runtime-Quiet what e = Quiet-raise _

get_punched_peer-Quiet : Quiet get_punched_peer
unfolding get_punched_peer
get_punched_peer-Quiet = Quiet-bind _ _ (Quiet-gets _) asserted-Quiet
  where
    asserted-Quiet : (x : Option PunchedPeer) → Quiet (asserted x)
    asserted-Quiet none = Quiet-stop _
    asserted-Quiet (some a) = Quiet-pure a

generate_nonce-Quiet : ⦃o : Os⦄ → Quiet generate_nonce
unfolding generate_nonce
generate_nonce-Quiet = search quiet_rules

module _ ⦃j : JsonLibrary⦄ ⦃s : OpenSsl⦄ ⦃b : Base64⦄ ⦃o : Os⦄ (our_keypair : Keypair)
    (socket : SocketPtr) where
  answer_peer-Writes :
      (nonce : Bytes) (response : Message PeerChallengeResponse)
      → Writes
          (answer_peer our_keypair nonce socket response)
          (λ l. (plain : Bytes) × (l ≡ text_of (peer_response plain) ∷ []))
  unfolding answer_peer
  answer_peer-Writes nonce response = Writes-if _ _ _ (Writes-raise _) (
      Writes-rest _ _ (Quiet-catch _ _ (Quiet-lift _) (crypto_to_runtime-Quiet _)) λ plain.
        Writes-first _ _ (λ l. l ≡ []) _ (send_and_log-Writes ⦃m = _⦄ socket _)
          (λ _.
            Writes-quiet _
              (Quiet-bind _ _ (receive_and_log-Quiet ⦃m = _⦄ socket) (λ _. Quiet-pure tt)) refl)
          λ l e. (plain, ap (λ x. text_of (peer_response plain) ∷ x) e))

  challenge_peer-Writes :
      (nonce cipher : Bytes)
      → Writes (challenge_peer our_keypair nonce socket cipher) (λ l.
        (plain : Bytes) × (l
          ≡ text_of (peer_challenge cipher) ∷ text_of (peer_response plain) ∷ []))
  unfolding challenge_peer
  challenge_peer-Writes nonce cipher =
      Writes-first _ _ _ _ (send_and_log-Writes ⦃m = _⦄ socket _)
        (λ _.
          Writes-rest _ _ (receive_and_log-Quiet ⦃m = _⦄ socket)
            λ response. answer_peer-Writes nonce response)
        λ l h. (h.0, ap (λ x. text_of (peer_challenge cipher) ∷ x) h.1)

  client_handshake-Writes : Writes (client_handshake our_keypair socket) ClientSent
  unfolding client_handshake
  client_handshake-Writes = Writes-rest _ _ generate_nonce-Quiet λ nonce.
      Writes-rest _ _ get_punched_peer-Quiet λ peer. Writes-rest _ _ (Quiet-ask _) λ pad.
        Writes-rest _ _ (Quiet-lift _) λ cipher. record {
          after = λ w a e.
              let (l, added, h) = (challenge_peer-Writes nonce cipher).after w a e in
              (l, added, (cipher, h.0, h.1));
        }

  acknowledge_client-Writes :
      (nonce : Bytes) (response : Message PeerResponse)
      → Writes
          (acknowledge_client our_keypair nonce socket response)
          (λ l. l ≡ text_of acknowledgement ∷ [])
  unfolding acknowledge_client
  acknowledge_client-Writes nonce response =
      Writes-if _ _ _ (Writes-raise _) (send_and_log-Writes ⦃m = _⦄ socket _)

  challenge_client-Writes :
      (nonce : Bytes) (response : PeerChallengeResponse)
      → Writes
          (challenge_client our_keypair nonce socket response)
          (λ l. l ≡ text_of response ∷ text_of acknowledgement ∷ [])
  unfolding challenge_client
  challenge_client-Writes nonce response =
      Writes-first _ _ _ _ (send_and_log-Writes ⦃m = _⦄ socket _)
        (λ _.
          Writes-rest _ _ (receive_and_log-Quiet ⦃m = _⦄ socket) (acknowledge_client-Writes nonce))
        λ l h. ap (λ x. text_of response ∷ x) h

  peer_handshake-Writes : (peer : Peer) → Writes (peer_handshake our_keypair peer socket) PeerSent
  unfolding peer_handshake answer_client
  peer_handshake-Writes peer = Writes-rest _ _ (receive_and_log-Quiet ⦃m = _⦄ socket) λ challenge.
      Writes-rest _ _ (Quiet-lift _) λ plain. Writes-rest _ _ generate_nonce-Quiet λ nonce.
        Writes-rest _ _ (Quiet-ask _) λ pad. Writes-rest _ _ (Quiet-lift _) λ cipher. record {
          after = λ w a e.
              let (l, added, h) = (challenge_client-Writes nonce _).after w a e in
              (l, added, (cipher, plain, h));
        }

  -- A client's handshake that returns has sent exactly two messages on top of what the thread had
  -- sent: a `PeerChallenge` and then a `PeerResponse`.
  client_handshake-Sent :
      (w : World)
      → (client_handshake our_keypair socket w).0 ≡ ok tt
      → (cipher plain : Bytes) × (whole (client_handshake our_keypair socket w).1.trace
          ≡ whole w.trace ++ (text_of (peer_challenge cipher) ∷ text_of (peer_response plain) ∷ []))
  client_handshake-Sent w e =
      let (l, added, (cipher, plain, h)) = client_handshake-Writes.after w tt e in
      (cipher, plain, added ∙ ap (λ x. whole w.trace ++ x) h)

  -- The handshake of the peer that has waited, where it returns, has sent exactly two messages on
  -- top of what the thread had sent: a `PeerChallengeResponse` and then a `PeerAcknowledgement`.
  peer_handshake-Sent :
      (peer : Peer) (w : World)
      → (peer_handshake our_keypair peer socket w).0 ≡ ok tt
      → (cipher plain : Bytes) × (whole (peer_handshake our_keypair peer socket w).1.trace
          ≡ whole w.trace
            ++ (text_of (challenge_response cipher plain) ∷ text_of acknowledgement ∷ []))
  peer_handshake-Sent peer w e =
      let (l, added, (cipher, plain, h)) = (peer_handshake-Writes peer).after w tt e in
      (cipher, plain, added ∙ ap (λ x. whole w.trace ++ x) h)

-- Where both sides of a handshake return, each has sent exactly two messages on top of what its
-- thread had sent: the client a `PeerChallenge` and then a `PeerResponse`, the peer that has waited
-- a `PeerChallengeResponse` and then a `PeerAcknowledgement`.
pub handshakes-Sent :
    ⦃j : JsonLibrary⦄ ⦃s : OpenSsl⦄ ⦃b : Base64⦄ (client_os peer_os : Os)
    (client_keypair peer_keypair : Keypair) (client_socket peer_socket : SocketPtr) (peer : Peer)
    (w v : World)
    → (client_handshake ⦃o = client_os⦄ client_keypair client_socket w).0 ≡ ok tt
    → (peer_handshake ⦃o = peer_os⦄ peer_keypair peer peer_socket v).0 ≡ ok tt
    → ((cipher plain : Bytes) × (whole
            (client_handshake ⦃o = client_os⦄ client_keypair client_socket w).1.trace
          ≡ whole w.trace
            ++ (text_of (peer_challenge cipher) ∷ text_of (peer_response plain) ∷ [])))
      × ((cipher plain : Bytes) × (whole
              (peer_handshake ⦃o = peer_os⦄ peer_keypair peer peer_socket v).1.trace
            ≡ whole v.trace
              ++ (text_of (challenge_response cipher plain) ∷ text_of acknowledgement ∷ [])))
handshakes-Sent client_os peer_os client_keypair peer_keypair client_socket peer_socket peer w v e
      e' =
    (
      client_handshake-Sent ⦃o = client_os⦄ client_keypair client_socket w e,
      peer_handshake-Sent ⦃o = peer_os⦄ peer_keypair peer_socket peer v e',
    )
