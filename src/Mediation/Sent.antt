-- ===== src/Mediation/Sent.antt =====
-- Which messages the handshake with the Mediator hands to the system.
use p2psc.Prelude.{◌≡◌, ap, ◌∙◌, not, false, suc, ℕ, [], ◌∷◌, ◌++◌, Bytes}
use mathlib.Core.List.{append_assoc}
use p2psc.Crypto.OpenSsl.{OpenSsl, Base64}
use p2psc.Crypto.Key.{Keypair, private_decrypt}
use p2psc.Errors
use p2psc.Errors.{Exception}
use p2psc.Message.Codec.{JsonLibrary, JsonLaws}
use p2psc.Message.Format.{message, encode}
use p2psc.Message.Payloads.Mediation.{
  advertise_payload, advertise_challenge_payload, advertise_response_payload,
}
use p2psc.Net.Objects.{SocketPtr, Peer, from_address}
use p2psc.Net.System.{Os}
use p2psc.Net.Run.{World, ok, throw, ◌>>=◌}
use p2psc.Net.Run.Returns.{bind-eq, bind-throw-eq, assert-bind-eq}
use p2psc.Net.Run.Written.{whole, Quiet, Quiet-whole, quiet_rules}
use p2psc.Net.Socket.{create_socket}
use p2psc.Net.Socket.Written.{create_socket-Quiet}
use p2psc.Net.Messages.{receive_raw, send_and_log}
use p2psc.Net.Messages.Delivery.{Sends, Arrives}
use p2psc.Net.Messages.Written.{receive_raw-Quiet, sent-whole, arrived-whole}
use p2psc.Mediation.{
  advertise, advertise_fuel, advertise_loop, await_peer, on_identification, on_disconnect, connect,
}
use p2psc.Mediation.Completion.{advertise_challenge, advertise_response, holding, connect-awaits}

module _ ⦃j : JsonLibrary⦄ ⦃s : OpenSsl⦄ ⦃b : Base64⦄ ⦃o : Os⦄ (our_keypair : Keypair) (peer : Peer)
    (socket : SocketPtr) where
  await_peer-Quiet : Quiet (await_peer our_keypair peer socket)
  unfolding await_peer on_identification on_disconnect
  await_peer-Quiet = search (quiet_rules, receive_raw-Quiet) depth 20

  advertise_loop-refused :
      (fuel retries : ℕ) (e : Exception) (w w₁ w₂ : World)
      → Sends socket (advertise our_keypair peer) w w₁
      → receive_raw socket w₁ ≡ (throw e, w₂)
      → advertise_loop our_keypair peer (suc fuel) socket retries w ≡ (throw e, w₂)
  unfolding advertise_loop
  advertise_loop-refused fuel retries e w w₁ w₂ sends refused =
      bind-eq (send_and_log socket (message (advertise our_keypair peer))) _ w w₁ tt sends
      ∙ bind-throw-eq (receive_raw socket) _ w₁ w₂ e refused

  connect-refused :
      (e : Exception) (w w₀ w₁ w₂ : World)
      → w.connection.connected ≡ false
      → create_socket (from_address w.connection.mediator.socket_address) w ≡ (ok socket, w₀)
      → Sends socket (advertise our_keypair peer) (holding socket w₀) w₁
      → receive_raw socket w₁ ≡ (throw e, w₂)
      → connect our_keypair peer create_socket w ≡ (throw e, w₂)
  unfolding connect ◌>>=◌
  connect-refused e w w₀ w₁ w₂ idle created sends refused =
      assert-bind-eq (not w.connection.connected) _ w (ap not idle)
      ∙ bind-eq (create_socket (from_address w.connection.mediator.socket_address)) _ w w₀ socket
          created
      ∙ bind-throw-eq (advertise_loop our_keypair peer advertise_fuel socket 0) _
          (holding socket w₀) w₂ e
          (advertise_loop-refused 5 0 e (holding socket w₀) w₁ w₂ sends refused)

  -- Where nothing more is received after the first message, it is the only one that is sent.
  pub connect-first_sent :
      (e : Exception) (w w₀ w₁ w₂ : World)
      → w.connection.connected ≡ false
      → create_socket (from_address w.connection.mediator.socket_address) w ≡ (ok socket, w₀)
      → Sends socket (advertise our_keypair peer) (holding socket w₀) w₁
      → receive_raw socket w₁ ≡ (throw e, w₂)
      → whole (connect our_keypair peer create_socket w).1.trace
        ≡ whole w.trace ++ (encode (message (advertise our_keypair peer)).format ∷ [])
  connect-first_sent e w w₀ w₁ w₂ idle created sends refused =
      ap (λ x. whole x.1.trace) (connect-refused e w w₀ w₁ w₂ idle created sends refused)
      ∙ Quiet-whole (receive_raw socket) w₁ w₂ _ (receive_raw-Quiet socket) refused
      ∙ sent-whole socket (advertise our_keypair peer) (holding socket w₀) w₁ sends
      ∙ ap (λ l. l ++ (encode (message (advertise our_keypair peer)).format ∷ []))
          (Quiet-whole _ w w₀ _
            (create_socket-Quiet (from_address w.connection.mediator.socket_address)) created)

  -- After a challenge that we decrypt, two messages are sent in all, whatever comes later.
  pub connect-both_sent :
      (laws : JsonLaws j) (cipher plain : Bytes) (w w₀ w₁ w₂ w₃ : World)
      → w.connection.connected ≡ false
      → create_socket (from_address w.connection.mediator.socket_address) w ≡ (ok socket, w₀)
      → Sends socket (advertise our_keypair peer) (holding socket w₀) w₁
      → Arrives socket (advertise_challenge cipher) w₁ w₂
      → private_decrypt our_keypair cipher ≡ Errors.ok plain
      → Sends socket (advertise_response plain) w₂ w₃
      → whole (connect our_keypair peer create_socket w).1.trace
        ≡ whole w.trace
          ++ (encode (message (advertise our_keypair peer)).format
              ∷ encode (message (advertise_response plain)).format
              ∷ [])
  connect-both_sent laws cipher plain w w₀ w₁ w₂ w₃ idle created sends challenged decrypts
        responds =
      let first = encode (message (advertise our_keypair peer)).format ∷ [] in
      let second = encode (message (advertise_response plain)).format ∷ [] in
      ap (λ x. whole x.1.trace)
        (connect-awaits laws our_keypair peer create_socket socket cipher plain w w₀ w₁ w₂ w₃ idle
          created sends challenged decrypts responds)
      ∙ await_peer-Quiet.same w₃
      ∙ sent-whole socket (advertise_response plain) w₂ w₃ responds
      ∙ ap (λ l. l ++ second)
          (arrived-whole socket (advertise_challenge cipher) w₁ w₂ challenged
            ∙ sent-whole socket (advertise our_keypair peer) (holding socket w₀) w₁ sends
            ∙ ap (λ l. l ++ first)
                (Quiet-whole _ w w₀ _
                  (create_socket-Quiet (from_address w.connection.mediator.socket_address))
                  created))
      ∙ append_assoc (whole w.trace) first second
