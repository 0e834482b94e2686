-- ===== src/Crypto/OpenSsl.antt =====
-- What src/crypto/rsa.cpp calls of OpenSSL and of vendor/base64, as parameters.
use p2psc.Prelude.{ℕ, ◌+◌, ◌≤◌, ◌<◌, ◌≡◌, Option, some, Bytes, length, All}
use p2psc.Errors.{Result, ok}

-- A key stands for the object that an `::RSA *` points to. `none` is the result -1 of the four
-- operations, the null pointer of the two readers. The padding of `RSA_PKCS1_PADDING` is random:
-- `public_encrypt` takes it as a number. `generate_key` takes the randomness of the new key.
pub record OpenSsl : Type 0 where
  pub public_encrypt : ℕ → ℕ → Bytes → Option Bytes
  pub public_decrypt : ℕ → Bytes → Option Bytes
  pub private_encrypt : ℕ → Bytes → Option Bytes
  pub private_decrypt : ℕ → Bytes → Option Bytes
  pub rsa_size : ℕ → ℕ
  pub generate_key : ℕ → ℕ
  -- `PEM_read_bio_RSAPublicKey` and `PEM_write_bio_RSAPublicKey` over a memory buffer.
  pub read_public_key : Bytes → Option ℕ
  pub write_public_key : ℕ → Bytes
  -- `PEM_read_bio_RSAPrivateKey` on the file of that name. The password callback is given the
  -- size of its buffer, and may throw.
  pub read_private_key : Bytes → (ℕ → Result Bytes) → Result (Option ℕ)
  -- `ERR_error_string_n(ERR_get_error(), …)`.
  pub error_string : Bytes

pub record Base64 : Type 0 where
  pub base64_encode : Bytes → Bytes
  pub base64_decode : Bytes → Bytes

abbrev pub IsBytes : Bytes → Type 0
IsBytes = All (λ b. b < 256)

abbrev pub IsAscii : Bytes → Type 0
IsAscii = All (λ b. b < 128)

pub record Base64Laws (b : Base64) : Type 0 where
  pub decode-encode : (s : Bytes) → IsBytes s → b.base64_decode (b.base64_encode s) ≡ s
  pub encode-IsAscii : (s : Bytes) → IsAscii (b.base64_encode s)

-- A message that leaves room for the padding is encrypted, to a text of bytes that the key decrypts
-- if it has its private half, as a key does that was generated or read from a private key's file.
-- The public key that is read back from its text encrypts as the key itself does.
pub record OpenSslLaws (s : OpenSsl) (IsPrivate : ℕ → Type 0) : Type 0 where
  pub encrypts :
      (pad key : ℕ) (message : Bytes)
      → IsBytes message
      → length message + 11 ≤ s.rsa_size key
      → (cipher : Bytes) × (s.public_encrypt pad key message ≡ some cipher)
  pub decrypts :
      (pad key : ℕ) (message cipher : Bytes)
      → IsBytes message
      → IsPrivate key
      → s.public_encrypt pad key message ≡ some cipher
      → IsBytes cipher × (s.private_decrypt key cipher ≡ some message)
  pub generates : (entropy : ℕ) → IsPrivate (s.generate_key entropy)
  pub loads :
      (path : Bytes) (password : ℕ → Result Bytes) (key : ℕ)
      → s.read_private_key path password ≡ ok (some key)
      → IsPrivate key
  pub reads :
      (key : ℕ)
      → (half : ℕ) × (s.read_public_key (s.write_public_key key) ≡ some half)
        × ((pad : ℕ) (m : Bytes) → s.public_encrypt pad half m ≡ s.public_encrypt pad key m)
        × (s.rsa_size half ≡ s.rsa_size key)
  pub write-IsAscii : (key : ℕ) → IsAscii (s.write_public_key key)
