-- ===== src/Crypto/RoundTrip.antt =====
-- Encryption under a serialised public key, and decryption by the key pair.
use p2psc.Prelude.{
  ℕ, ◌+◌, ◌≤◌, false, sym, ◌≡◌, ◌∙◌, refl, arith, Bytes, length, some, none, Option, true, codes,
}
use p2psc.Errors.{ok, throw, crypto_exception, ◌>>=◌}
use p2psc.Crypto.OpenSsl.{OpenSsl, OpenSslLaws, Base64, Base64Laws, IsAscii, IsBytes}
use p2psc.Crypto.Rsa.{
  Rsa, from_public_key, generate, get_public_key_string, check_error, key_or_throw, no_private_key,
  public_encrypt, private_decrypt, private_encrypt,
}
use p2psc.Crypto.Key.{
  Keypair, PublicKey, generate_keypair, get_serialised_public_key, from_string, encrypt,
}
use p2psc.Crypto.Key

module _ ⦃s : OpenSsl⦄ ⦃b : Base64⦄ where
  -- The pair has the private half of its key, and says so.
  abbrev pub IsUsable : (ℕ → Type 0) → Keypair → Type 0
  IsUsable IsPrivate k = (k.pki.has_private_key ≡ true) × IsPrivate k.pki.key

  -- What `public` encrypts is text that `k` decrypts.
  abbrev pub Reaches : PublicKey → Keypair → Type 0
  Reaches public k =
      (pad : ℕ) (message : Bytes)
      → IsBytes message
      → length message + 11 ≤ s.rsa_size public.pki.key
      → (cipher : Bytes) × (encrypt pad public message ≡ ok cipher)
        × IsAscii cipher
        × (Key.private_decrypt k cipher ≡ ok message)

  module _ {IsPrivate : ℕ → Type 0} (laws : OpenSslLaws s IsPrivate) (base : Base64Laws b) where
    generate_keypair-IsUsable : (entropy : ℕ) → IsUsable IsPrivate (generate_keypair entropy)
    unfolding generate_keypair generate
    generate_keypair-IsUsable entropy = (refl, laws.generates entropy)

    pub encrypted-Reaches :
        (k : Keypair) (half : ℕ)
        → IsUsable IsPrivate k
        → ((pad : ℕ) (m : Bytes) → s.public_encrypt pad half m ≡ s.public_encrypt pad k.pki.key m)
        → Reaches (record { pki = record { key = half; has_private_key = false } }) k
    unfolding encrypt public_encrypt Key.private_decrypt private_decrypt check_error
    encrypted-Reaches k half (flag, private) same pad message is_bytes room =
        let (cipher, e) = laws.encrypts pad half message is_bytes room in
        let (bytes, plain) =
          laws.decrypts pad k.pki.key message cipher is_bytes private
            (sym (same pad message) ∙ e) in
        (
          b.base64_encode cipher,
          ground (arith, e),
          base.encode-IsAscii cipher,
          ground (arith, flag, plain, base.decode-encode cipher bytes),
        )

    -- The public key of a pair that has its private half, sent as text: the text is ASCII and
    -- is read back, and every string of bytes that leaves room for the padding and is encrypted
    -- under what was read becomes an ASCII text that the pair decrypts to the string.
    pub from_string-Reaches :
        (k : Keypair)
        → IsUsable IsPrivate k
        → IsAscii (get_serialised_public_key k)
          × ((public : PublicKey) × (from_string (get_serialised_public_key k) ≡ ok public)
              × (s.rsa_size public.pki.key ≡ s.rsa_size k.pki.key)
              × Reaches public k)
    unfolding from_string from_public_key get_serialised_public_key get_public_key_string
        key_or_throw
    from_string-Reaches k usable =
        let (half, e, same, size) = laws.reads k.pki.key in
        (
          laws.write-IsAscii k.pki.key,
          (
            record { pki = record { key = half; has_private_key = false } },
            ground (arith, e),
            size,
            encrypted-Reaches k half usable same,
          ),
        )

  -- A key that was read from a public key's text does nothing that needs a private key.
  abbrev pub Refuses : Rsa → Type 0
  Refuses r =
      (text : Bytes)
      → ((private_decrypt r text
            ≡ throw (crypto_exception (codes "This RSA structure has no private key")))
          × (private_encrypt r text
              ≡ throw (crypto_exception (codes "This RSA structure has no private key"))))

  key_or_throw-Refuses :
      (what : Bytes) (x : Option ℕ) (r : Rsa)
      → (key_or_throw what x >>= λ key. ok (record { key = key; has_private_key = false })) ≡ ok r
      → Refuses r
  unfolding key_or_throw private_decrypt private_encrypt no_private_key
  key_or_throw-Refuses what none r h text = cc
  key_or_throw-Refuses what (some key) r h text = (ground (arith, h), ground (arith, h))

  -- A key that was read from the text of a public key throws, whatever it is given, on the two
  -- operations that need a private key.
  pub from_public_key-Refuses :
      (public_key : Bytes) (r : Rsa) → from_public_key public_key ≡ ok r → Refuses r
  unfolding from_public_key
  from_public_key-Refuses public_key r h = key_or_throw-Refuses _ (s.read_public_key public_key) r h
