-- ===== src/Integration/FakeMediator/Challenge.antt =====
-- What a peer makes of the challenge of the tests' Mediator.
use p2psc.Prelude.{
  ℕ, ◌≤◌, ◌≡◌, refl, ap, ◌∙◌, arith, false, [], ◌∷◌, ◌++◌, Bytes, to_string, length, ◌==◌,
}
use p2psc.Errors.{ok}
use p2psc.Crypto.OpenSsl.{OpenSsl, Base64, OpenSslLaws, Base64Laws, IsBytes}
use p2psc.Crypto.Rsa.{Rsa, from_public_key, public_encrypt, key_or_throw, get_public_key_string}
use p2psc.Crypto.Key.{Keypair, PublicKey, get_serialised_public_key, encrypt}
use p2psc.Crypto.Key
use p2psc.Crypto.RoundTrip.{IsUsable, encrypted-Reaches}
use p2psc.Message.Types.{type_advertise_challenge}
use p2psc.Message.Codec.{JsonLibrary, JsonLaws}
use p2psc.Message.Format.{message, encode, decode}
use p2psc.Message.RoundTrip.{decode-encode}
use p2psc.Message.Payloads.Mediation.{Advertise, AdvertiseChallenge, advertise_challenge_payload}
use p2psc.Net.Objects.{SocketAddress}
use p2psc.Integration.Handle.{FakeMediator, ◌>>=◌}
use p2psc.Integration.FakeMediator.{awaiting_response, challenge, send_and_log, quit_if_requested}

module _ ⦃j : JsonLibrary⦄ ⦃s : OpenSsl⦄ ⦃b : Base64⦄ (address : SocketAddress) (a : Advertise)
    (m : FakeMediator) where
  -- The message in which the handler sends its nonce.
  abbrev pub challenge_text : Bytes → Bytes
  challenge_text cipher =
      encode (message {T = AdvertiseChallenge} (record { encrypted_nonce = cipher })).format

  -- The Mediator after it has sent this message.
  abbrev pub challenged : Bytes → FakeMediator
  challenged cipher = record m { sent_messages = m.sent_messages ++ (challenge_text cipher ∷ []) }

  pub challenge-eq :
      (pad : ℕ) (r : Rsa) (cipher : Bytes)
      → from_public_key a.our_key ≡ ok r
      → public_encrypt pad r (to_string 1337) ≡ ok cipher
      → (type_advertise_challenge == m.quit_after) ≡ false
      → challenge address a pad (ok tt) m ≡ (ok (awaiting_response a), challenged cipher)
  unfolding challenge send_and_log quit_if_requested ◌>>=◌ message encode
  challenge-eq pad r cipher key enc quit = rw key (rw enc (rw quit refl))

pub digits_lem : IsBytes (to_string 1337) × (length (to_string 1337) ≡ 4)
unfolding to_string
digits_lem = ((omega arith, (omega arith, (omega arith, (omega arith, tt)))), refl)

module _ ⦃j : JsonLibrary⦄ ⦃s : OpenSsl⦄ ⦃b : Base64⦄ {IsPrivate : ℕ → Type 0} (json : JsonLaws j)
    (laws : OpenSslLaws s IsPrivate) (base : Base64Laws b) (address : SocketAddress) (a : Advertise)
    (m : FakeMediator) where
  -- Of a session whose key pair has its private half and room for the nonce, and which has advertised
  -- the public key of that pair, the Mediator sends a challenge unless it is to quit there; the
  -- session's peer decodes the challenge and decrypts the nonce in it.
  pub challenge-answered :
      (k : Keypair) (pad : ℕ)
      → IsUsable IsPrivate k
      → 15 ≤ s.rsa_size k.pki.key
      → a.our_key ≡ get_serialised_public_key k
      → (type_advertise_challenge == m.quit_after) ≡ false
      → (cipher : Bytes) × (challenge address a pad (ok tt) m
          ≡ (ok (awaiting_response a), challenged address a m cipher))
        × (decode (challenge_text address a m cipher)
            ≡ ok (message {T = AdvertiseChallenge} (record { encrypted_nonce = cipher })).format)
        × (Key.private_decrypt k cipher ≡ ok (to_string 1337))
  unfolding encrypt from_public_key get_serialised_public_key get_public_key_string key_or_throw
      message
  challenge-answered k pad usable room advertised quit =
      let (half, e, same, size) = laws.reads k.pki.key in
      let (cipher, enc, ascii, dec) =
        encrypted-Reaches laws base k half usable same pad (to_string 1337) digits_lem.0
          (omega (arith, size, digits_lem.1)) in
      let f = (message {T = AdvertiseChallenge} (record { encrypted_nonce = cipher })).format in
      (
        cipher,
        challenge-eq address a m pad _ cipher (ap from_public_key advertised ∙ ground (arith, e))
            enc quit,
        decode-encode json f (omega arith, (ascii, tt)),
        dec,
      )
