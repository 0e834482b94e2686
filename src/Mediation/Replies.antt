-- ===== src/Mediation/Replies.antt =====
-- The handshake with the Mediator on messages instead of their texts.
use p2psc.Prelude.{
  ℕ, zero, suc, List, [], ◌∷◌, Option, some, none, inl, inr, Bool-cases, ◌≤◌, ◌<◌, ◌+◌, ◌≡◌, ◌∙◌,
  arith, Bytes, codes, ◌++◌, ◌==◌, if◌then◌else◌, All,
}
use p2psc.Errors.{runtime_error}
use p2psc.Crypto.OpenSsl.{OpenSsl, Base64}
use p2psc.Crypto.Key.{Keypair}
use p2psc.Message.Codec.{JsonLibrary, JsonLaws}
use p2psc.Message.Format.{message, encode, decode_message_type}
use p2psc.Message.Payloads.Mediation.{
  AdvertiseAbort, AdvertiseRetry, AdvertiseChallenge, advertise_payload, advertise_abort_payload,
  advertise_retry_payload, advertise_challenge_payload,
}
use p2psc.Message.RoundTrip.{Fits, decode-encode, decode_message_type-encode}
use p2psc.Net.Objects.{SocketPtr, Peer}
use p2psc.Net.System.{Os}
use p2psc.Net.Run.{World, Outcome, Run, ok, throw, pure, raise, lift, ◌>>=◌}
use p2psc.Net.Run.Returns.{lift-bind-eq, bind-eq, raise-eq, pure-eq}
use p2psc.Net.Messages.{receive_raw, send_and_log}
use p2psc.Mediation.{
  max_advertise_retries, on_abort, on_retry, on_challenge, on_response, advertise, advertise_fuel,
  advertise_loop, retried_too_often,
}

-- The three messages that the Mediator may answer an `Advertise` with.
pub data Reply : Type 0 where
  abort : AdvertiseAbort → Reply
  retry : AdvertiseRetry → Reply
  challenge : AdvertiseChallenge → Reply

abbrev pub IsAsciiReply : Reply → Type 0
IsAsciiReply (abort m) = All (λ b. b < 128) m.reason
IsAsciiReply (retry m) = All (λ b. b < 128) m.reason
IsAsciiReply (challenge m) = All (λ b. b < 128) m.encrypted_nonce

-- What the protocol makes of a reply after `retries` retries.
abbrev pub meaning : Reply → ℕ → Run AdvertiseChallenge → Run AdvertiseChallenge
meaning (abort m) retries more = raise (runtime_error (codes "AdvertiseAbort: " ++ m.reason))
meaning (retry m) retries more =
    if retries == max_advertise_retries then raise (retried_too_often retries m.reason) else more
meaning (challenge m) retries more = pure m

final : Outcome AdvertiseChallenge → List Reply → Option (Outcome AdvertiseChallenge)
final outcome [] = some outcome
final outcome (_ ∷ _) = none

-- How the replies decide the exchange after `retries` retries, if they are all that it takes: the
-- first reply that is no request to retry ends it, and so does the sixth request.
unfoldable pub verdict : List Reply → ℕ → Option (Outcome AdvertiseChallenge)
unfolding final
verdict [] retries = none
verdict (abort m ∷ replies) retries =
    final (throw (runtime_error (codes "AdvertiseAbort: " ++ m.reason))) replies
verdict (challenge m ∷ replies) retries = final (ok m) replies
verdict (retry m ∷ replies) retries =
    let next = verdict replies (retries + 1) in
    if retries == max_advertise_retries
    then final (throw (retried_too_often retries m.reason)) replies
    else next

module _ ⦃j : JsonLibrary⦄ where
  abbrev pub encoded : Reply → Bytes
  encoded (abort m) = encode (message m).format
  encoded (retry m) = encode (message m).format
  encoded (challenge m) = encode (message m).format

module _ ⦃j : JsonLibrary⦄ ⦃s : OpenSsl⦄ ⦃b : Base64⦄ ⦃o : Os⦄ (laws : JsonLaws j)
    (our_keypair : Keypair) (peer : Peer) where
  handler : Bytes → ℕ → Run AdvertiseChallenge → Run AdvertiseChallenge
  handler raw retries more = do
    type ← lift (decode_message_type raw)
    on_response our_keypair peer type raw retries more

  handler-meaning :
      (reply : Reply) (retries : ℕ) (more : Run AdvertiseChallenge) (w : World)
      → IsAsciiReply reply
      → handler (encoded reply) retries more w ≡ meaning reply retries more w
  unfolding handler on_response on_abort on_retry on_challenge message
  handler-meaning (abort m) retries more w h =
      let f = (message m).format in
      let fits : Fits f = (omega arith, (h, tt)) in
      lift-bind-eq _ _ _ w (decode_message_type-encode laws f fits)
      ∙ lift-bind-eq _ _ _ w (decode-encode laws f fits)
  handler-meaning (retry m) retries more w h =
      let f = (message m).format in
      let fits : Fits f = (omega arith, (h, tt)) in
      lift-bind-eq _ _ _ w (decode_message_type-encode laws f fits)
      ∙ lift-bind-eq _ _ _ w (decode-encode laws f fits)
  handler-meaning (challenge m) retries more w h =
      let f = (message m).format in
      let fits : Fits f = (omega arith, (h, tt)) in
      lift-bind-eq _ _ _ w (decode_message_type-encode laws f fits)
      ∙ lift-bind-eq _ _ _ w (decode-encode laws f fits)
      ∙ lift-bind-eq _ _ _ w (decode-encode laws f fits)

  module _ (socket : SocketPtr) where
    -- From `w` to `w'` the Mediator answers each `Advertise` with the next of the replies.
    abbrev pub Answers : List Reply → World → World → Type 0
    Answers [] w w' = w ≡ w'
    Answers (reply ∷ replies) w w' =
        (w₁ : World) × (w₂ : World) × (send_and_log socket (message (advertise our_keypair peer)) w
          ≡ (ok tt, w₁))
        × (receive_raw socket w₁ ≡ (ok (encoded reply), w₂))
        × IsAsciiReply reply
        × Answers replies w₂ w'

    advertise_loop-meaning :
        (fuel retries : ℕ) (reply : Reply) (w w₁ w₂ : World)
        → send_and_log socket (message (advertise our_keypair peer)) w ≡ (ok tt, w₁)
        → receive_raw socket w₁ ≡ (ok (encoded reply), w₂)
        → IsAsciiReply reply
        → advertise_loop our_keypair peer (suc fuel) socket retries w
          ≡ meaning reply retries (advertise_loop our_keypair peer fuel socket (retries + 1)) w₂
    unfolding advertise_loop handler
    advertise_loop-meaning fuel retries reply w w₁ w₂ sent received ascii =
        let more = advertise_loop our_keypair peer fuel socket (retries + 1) in
        bind-eq (send_and_log socket (message (advertise our_keypair peer))) _ w w₁ tt sent
        ∙ bind-eq (receive_raw socket) _ w₁ w₂ (encoded reply) received
        ∙ handler-meaning reply retries more w₂ ascii

    finished :
        (o outcome : Outcome AdvertiseChallenge) (replies : List Reply) (w w' : World)
        → Answers replies w w'
        → final o replies ≡ some outcome
        → ◌≡◌ {A = Outcome AdvertiseChallenge × World} (o, w) (outcome, w')
    unfolding final
    finished o outcome [] w w' same e = cc
    finished o outcome (_ ∷ _) w w' rest e = cc

    advertise_loop-run :
        (fuel retries : ℕ) (replies : List Reply) (w w' : World)
        (outcome : Outcome AdvertiseChallenge)
        → retries ≤ max_advertise_retries
        → max_advertise_retries < fuel + retries
        → Answers replies w w'
        → verdict replies retries ≡ some outcome
        → advertise_loop our_keypair peer fuel socket retries w ≡ (outcome, w')
    unfolding verdict final
    advertise_loop-run zero retries replies w w' outcome low enough answers decided =
        absurd (omega arith)
    advertise_loop-run (suc fuel) retries [] w w' outcome low enough answers decided = cc
    advertise_loop-run (suc fuel) retries (abort m ∷ replies) w w' outcome low enough
          (w₁, w₂, sent, received, ascii, rest) decided =
        advertise_loop-meaning fuel retries (abort m) w w₁ w₂ sent received ascii
        ∙ raise-eq _ w₂
        ∙ finished _ outcome replies w₂ w' rest decided
    advertise_loop-run (suc fuel) retries (challenge m ∷ replies) w w' outcome low enough
          (w₁, w₂, sent, received, ascii, rest) decided =
        advertise_loop-meaning fuel retries (challenge m) w w₁ w₂ sent received ascii
        ∙ pure-eq m w₂
        ∙ finished _ outcome replies w₂ w' rest decided
    advertise_loop-run (suc fuel) retries (retry m ∷ replies) w w' outcome low enough
          (w₁, w₂, sent, received, ascii, rest) decided =
        advertise_loop-meaning fuel retries (retry m) w w₁ w₂ sent received ascii
        ∙ elim (Bool-cases (retries == max_advertise_retries)) [
          | inl last ↦
              rw last (raise-eq _ w₂ ∙ finished _ outcome replies w₂ w' rest (rw last at decided))
          | inr again ↦ rw again (
              advertise_loop-run fuel (retries + 1) replies w₂ w' outcome
                (ground (arith, low, again)) (omega (arith, enough)) rest (rw again at decided))
        ]

    -- The loop of the handshake does what the replies decide: where the Mediator answers each
    -- `Advertise` with the next of the replies, and they decide the exchange, the loop returns the
    -- challenge, or throws with the reason of the abort or of the sixth request to retry, and it
    -- has read all of them. The replies' texts are ASCII.
    pub advertise_loop-verdict :
        (replies : List Reply) (w w' : World) (outcome : Outcome AdvertiseChallenge)
        → Answers replies w w'
        → verdict replies 0 ≡ some outcome
        → advertise_loop our_keypair peer advertise_fuel socket 0 w ≡ (outcome, w')
    advertise_loop-verdict replies w w' outcome answers decided =
        advertise_loop-run advertise_fuel 0 replies w w' outcome (omega arith) (omega arith) answers
          decided
