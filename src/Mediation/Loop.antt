-- ===== src/Mediation/Loop.antt =====
-- The loop of the handshake with the Mediator, and its answer to the challenge, fail no assertion and
-- follow no null pointer.
use p2psc.Prelude.{
  ℕ, zero, suc, ◌+◌, ◌≤◌, ◌<◌, ◌≢◌, arith, Bytes, ◌==◌, Bool-cases, inl, inr, some, List,
}
use p2psc.Errors.{Exception, crypto_exception}
use p2psc.Crypto.OpenSsl.{OpenSsl, Base64}
use p2psc.Crypto.Key.{Keypair}
use p2psc.Message.Types.{
  MessageType, type_advertise_abort, type_advertise_retry, type_advertise_challenge,
}
use p2psc.Message.Codec.{JsonLibrary}
use p2psc.Message.Payloads.Mediation.{AdvertiseChallenge}
use p2psc.Net.Objects.{Socket, Peer, MediatorConnection}
use p2psc.Net.System.{Os}
use p2psc.Net.Run.{Run}
use p2psc.Net.Run.Safe.{Assertion, Keeps, IsPointer, Keeps-if, Keeps-raise}
use p2psc.Net.Run.Safe.Compose.{Keeps-bind, keeps_rules}
use p2psc.Net.Messages.Safety.{send_and_log-Keeps, receive_raw-Keeps}
use p2psc.Mediation.{
  max_advertise_retries, crypto_to_runtime, on_abort, on_challenge, on_retry, on_unexpected,
  on_response, advertise_loop, answer_challenge,
}

pub crypto_to_runtime-Keeps :
    ⦃o : Os⦄ {P : Assertion} {A : Type 0} (what : Bytes) (e : Exception)
    → Keeps P (crypto_to_runtime {A = A} what e)
unfolding crypto_to_runtime
crypto_to_runtime-Keeps what (crypto_exception w) = Keeps-raise _
crypto_to_runtime-Keeps what _ = Keeps-raise _

module _ ⦃j : JsonLibrary⦄ ⦃s : OpenSsl⦄ ⦃b : Base64⦄ ⦃o : Os⦄ {P : Assertion}
    (our_keypair : Keypair) (peer : Peer) where
  on_retry-Keeps :
      (raw : Bytes) (retries : ℕ) (more : Run AdvertiseChallenge)
      → (retries ≢ max_advertise_retries → Keeps P more)
      → Keeps P (on_retry our_keypair peer raw retries more)
  unfolding on_retry
  on_retry-Keeps raw retries more km = Keeps-bind _ _ (search keeps_rules) λ retry.
      elim (Bool-cases (retries == max_advertise_retries)) [
        | inl last ↦ rw last (Keeps-raise _)
        | inr again ↦ rw again (km (λ e. ground arith))
      ]

  on_response-Keeps :
      (type : MessageType) (raw : Bytes) (retries : ℕ) (more : Run AdvertiseChallenge)
      → (retries ≢ max_advertise_retries → Keeps P more)
      → Keeps P (on_response our_keypair peer type raw retries more)
  unfolding on_response on_abort on_challenge on_unexpected
  on_response-Keeps type raw retries more km =
      Keeps-if (type == type_advertise_abort) _ _ (search keeps_rules) (
        Keeps-if (type == type_advertise_retry) _ _ (on_retry-Keeps raw retries more km) (
          Keeps-if (type == type_advertise_challenge) _ _ (search keeps_rules)
            (search keeps_rules)))

  module _ (q : ℕ)
      (pointer : (s : List Socket) (c : MediatorConnection) → P s c → IsPointer q s) where
    pub advertise_loop-Keeps :
        (fuel retries : ℕ)
        → retries ≤ max_advertise_retries
        → max_advertise_retries < fuel + retries
        → Keeps P (advertise_loop our_keypair peer fuel (some q) retries)
    unfolding advertise_loop
    advertise_loop-Keeps zero retries h enough = absurd (omega arith)
    advertise_loop-Keeps (suc fuel) retries h enough =
        Keeps-bind _ _ (send_and_log-Keeps q pointer ⦃m = _⦄ _) λ _.
          Keeps-bind _ _ (receive_raw-Keeps q pointer) λ raw.
            Keeps-bind _ _ (search keeps_rules) λ type.
              on_response-Keeps type raw retries _
                (λ more. advertise_loop-Keeps fuel (retries + 1) (omega arith) (omega arith))

    pub answer_challenge-Keeps :
        (c : AdvertiseChallenge) → Keeps P (answer_challenge our_keypair peer (some q) c)
    unfolding answer_challenge
    answer_challenge-Keeps c =
        Keeps-bind _ _ (search (keeps_rules, crypto_to_runtime-Keeps))
          λ nonce. send_and_log-Keeps q pointer ⦃m = _⦄ _
