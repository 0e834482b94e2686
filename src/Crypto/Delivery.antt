-- ===== src/Crypto/Delivery.antt =====
-- What is encrypted for a key pair under the key that was read from its public text.
use p2psc.Prelude.{ℕ, ◌+◌, ◌≤◌, ◌≡◌, subst, Bytes, length, bytes_of_ascii}
use p2psc.Errors
use p2psc.Crypto.OpenSsl.{OpenSsl, OpenSslLaws, Base64, Base64Laws, IsAscii}
use p2psc.Crypto.Key.{
  Keypair, PublicKey, get_serialised_public_key, from_string, encrypt, private_decrypt,
}
use p2psc.Crypto.RoundTrip.{IsUsable, from_string-Reaches}

module _ ⦃s : OpenSsl⦄ ⦃b : Base64⦄ {IsPrivate : ℕ → Type 0} (laws : OpenSslLaws s IsPrivate)
    (base : Base64Laws b) where
  -- The text encrypted under a key that was read from a pair's public text is ASCII, and the pair
  -- decrypts it.
  pub reaches :
      (owner : Keypair) (public : PublicKey) (pad : ℕ) (plain cipher : Bytes)
      → IsUsable IsPrivate owner
      → from_string (get_serialised_public_key owner) ≡ Errors.ok public
      → IsAscii plain
      → length plain + 11 ≤ s.rsa_size owner.pki.key
      → encrypt pad public plain ≡ Errors.ok cipher
      → IsAscii cipher × (private_decrypt owner cipher ≡ Errors.ok plain)
  reaches owner public pad plain cipher usable parsed ascii room encrypted =
      let (_, (read, parse, size, reach)) = from_string-Reaches laws base owner usable in
      let same : read ≡ public = cc in
      let (text, e, text_ascii, back) =
        reach pad plain (bytes_of_ascii plain ascii) (rw size room) in
      let same_text : text ≡ cipher = cc in
      (
        subst IsAscii same_text text_ascii,
        subst (λ x. private_decrypt owner x ≡ Errors.ok plain) same_text back,
      )
