-- ===== src/Mediation/Retries.antt =====
-- How often the handshake with the Mediator sends, and the fuel of its loop.
use p2psc.Prelude.{ℕ, zero, suc, ◌+◌, ◌≤◌, ◌<◌, ◌≢◌, Bytes, arith, ◌==◌, Bool-cases, inl, inr}
use p2psc.Errors.{Exception, crypto_exception}
use p2psc.Crypto.OpenSsl.{OpenSsl, Base64}
use p2psc.Crypto.Key.{Keypair}
use p2psc.Message.Types.{
  MessageType, type_advertise_abort, type_advertise_retry, type_advertise_challenge,
}
use p2psc.Message.Codec.{JsonLibrary}
use p2psc.Message.Payloads.Mediation.{AdvertiseChallenge}
use p2psc.Net.Objects.{SocketPtr, Peer, SocketAddressOrFileDescriptor}
use p2psc.Net.System.{Os}
use p2psc.Net.Run.{Run}
use p2psc.Net.Run.Bounded.{
  Bounded, Bounded-mono, Bounded-raise, Bounded-if, Bounded-bind, Bounded-first,
}
use p2psc.Net.Socket.{SocketCreator}
use p2psc.Net.Messages.Bounds.{send_and_log-Bounded, receive_raw-Bounded, object_rules}
use p2psc.Mediation.{
  max_advertise_retries, crypto_to_runtime, on_abort, on_challenge, on_retry, on_unexpected,
  on_response, advertise_loop, advertise_fuel, await_peer, answer_challenge, connect,
}

pub crypto_to_runtime-Bounded :
    {A : Type 0} (what : Bytes) (e : Exception) → Bounded 0 (crypto_to_runtime {A = A} what e)
unfolding crypto_to_runtime
crypto_to_runtime-Bounded what (crypto_exception w) = Bounded-raise _
crypto_to_runtime-Bounded what _ = Bounded-raise _

module _ ⦃j : JsonLibrary⦄ ⦃s : OpenSsl⦄ ⦃b : Base64⦄ ⦃o : Os⦄ (our_keypair : Keypair)
    (peer : Peer) where
  on_retry-Bounded :
      {n : ℕ} (raw : Bytes) (retries : ℕ) (more : Run AdvertiseChallenge)
      → (retries ≢ max_advertise_retries → Bounded n more)
      → Bounded n (on_retry our_keypair peer raw retries more)
  unfolding on_retry
  on_retry-Bounded {n} raw retries more bm = Bounded-first _ _ (search object_rules) λ retry.
      elim (Bool-cases (retries == max_advertise_retries)) [
        | inl last ↦ rw last (Bounded-mono _ (omega arith) (Bounded-raise _))
        | inr again ↦ rw again (bm (λ e. ground arith))
      ]

  on_response-Bounded :
      {n : ℕ} (type : MessageType) (raw : Bytes) (retries : ℕ) (more : Run AdvertiseChallenge)
      → (retries ≢ max_advertise_retries → Bounded n more)
      → Bounded n (on_response our_keypair peer type raw retries more)
  unfolding on_response
  on_response-Bounded type raw retries more bm =
      Bounded-if (type == type_advertise_abort) _ _
        (Bounded-mono {n = 0} (on_abort our_keypair peer raw) (omega arith) (search object_rules))
        (Bounded-if (type == type_advertise_retry) _ _ (on_retry-Bounded raw retries more bm) (
          Bounded-if (type == type_advertise_challenge) _ _
            (Bounded-mono {n = 0} (on_challenge our_keypair peer raw) (omega arith)
              (search object_rules))
            (Bounded-mono {n = 0} (on_unexpected our_keypair peer type) (omega arith)
              (search object_rules))))

  -- With a round for each retry that is left, the loop needs no more fuel.
  advertise_loop-Bounded :
      (fuel : ℕ) (socket : SocketPtr) (retries : ℕ)
      → retries ≤ max_advertise_retries
      → max_advertise_retries < fuel + retries
      → Bounded fuel (advertise_loop our_keypair peer fuel socket retries)
  unfolding advertise_loop
  advertise_loop-Bounded zero socket retries h enough = absurd (omega arith)
  advertise_loop-Bounded (suc fuel) socket retries h enough =
      Bounded-bind {n = 1} {k = fuel} _ _ (omega arith) (send_and_log-Bounded ⦃m = _⦄ socket _) λ _.
        Bounded-first _ _ (receive_raw-Bounded socket) λ raw.
          Bounded-first _ _ (search object_rules) λ type.
            on_response-Bounded type raw retries _
              (λ more. advertise_loop-Bounded fuel socket (retries + 1) (omega arith) (omega arith))

  answer_challenge-Bounded :
      (socket : SocketPtr) (c : AdvertiseChallenge)
      → Bounded 1 (answer_challenge our_keypair peer socket c)
  unfolding answer_challenge
  answer_challenge-Bounded socket c =
      Bounded-first _ _ (search (object_rules, crypto_to_runtime-Bounded))
        λ nonce. send_and_log-Bounded ⦃m = _⦄ socket _

  await_peer-Bounded : (socket : SocketPtr) → Bounded 0 (await_peer our_keypair peer socket)
  unfolding await_peer
  await_peer-Bounded socket = search object_rules depth 20

  -- However the Mediator answers, the handshake with it hands at most seven messages to the system,
  -- and its loop does not run out of the model's fuel, if the socket creator sends nothing.
  pub connect-Bounded :
      (creator : SocketCreator)
      → ((a : SocketAddressOrFileDescriptor) → Bounded 0 (creator a))
      → Bounded (max_advertise_retries + 2) (connect our_keypair peer creator)
  unfolding connect
  connect-Bounded creator created = Bounded-first _ _ (search object_rules) λ c.
      Bounded-first _ _ (search object_rules) λ _. Bounded-first _ _ (created _) λ socket.
        Bounded-first _ _ (search object_rules) λ _.
          Bounded-bind {n = 6} {k = 1} _ _ (omega arith)
            (advertise_loop-Bounded advertise_fuel socket 0 (omega arith) (omega arith))
            λ c.
              Bounded-bind {n = 1} {k = 0} _ _ (omega arith) (answer_challenge-Bounded socket c)
                λ _. await_peer-Bounded socket
