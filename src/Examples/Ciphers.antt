-- ===== src/Examples/Ciphers.antt =====
-- Small stand-ins for OpenSSL and vendor/base64 that keep their laws.
use p2psc.Prelude.{
  ℕ, ◌+◌, ◌-◌, ◌*◌, ◌/◌, ◌%◌, ◌≡◌, refl, ap, subst, arith, ◌==◌, if◌then◌else◌, Option, none, some,
  [], ◌∷◌, Bytes, codes,
}
use p2psc.Errors.{ok}
use p2psc.Crypto.OpenSsl.{OpenSsl, OpenSslLaws, Base64, Base64Laws, IsBytes, IsAscii}

-- Two letters for a byte.
hex_encode : Bytes → Bytes
hex_encode [] = []
hex_encode (a ∷ s) = (65 + a / 16 % 16) ∷ (65 + a % 16) ∷ hex_encode s

hex_decode : Bytes → Bytes
hex_decode (a ∷ b ∷ s) = ((a - 65) * 16 + (b - 65)) ∷ hex_decode s
hex_decode _ = []

instance unfoldable pub toy_base64 : Base64
unfolding hex_encode hex_decode
toy_base64 = record { base64_encode = hex_encode; base64_decode = hex_decode }

hex_decode-hex_encode : (s : Bytes) → IsBytes s → hex_decode (hex_encode s) ≡ s
unfolding hex_encode hex_decode
hex_decode-hex_encode [] h = refl
hex_decode-hex_encode (a ∷ s) h = ground (arith, h.0, hex_decode-hex_encode s h.1)

hex_encode-IsAscii : (s : Bytes) → IsAscii (hex_encode s)
unfolding hex_encode
hex_encode-IsAscii [] = tt
hex_encode-IsAscii (a ∷ s) = (omega arith, (omega arith, hex_encode-IsAscii s))

pub toy_base64_laws : Base64Laws toy_base64
unfolding toy_base64
toy_base64_laws = record {
  decode-encode = hex_decode-hex_encode;
  encode-IsAscii = hex_encode-IsAscii;
}

-- The cipher names the key, and another key does not decrypt it.
toy_encrypt : ℕ → Bytes → Option Bytes
toy_encrypt key message = some ((key % 256) ∷ message)

toy_decrypt : ℕ → Bytes → Option Bytes
toy_decrypt key [] = none
toy_decrypt key (k ∷ message) = if k == key % 256 then some message else none

-- Two characters below 128.
write_key : ℕ → Bytes
write_key key = (key % 256 / 2) ∷ (key % 2) ∷ []

read_key : Bytes → Option ℕ
read_key (a ∷ b ∷ []) = some (a * 2 + b)
read_key _ = none

instance unfoldable pub toy_open_ssl : OpenSsl
unfolding toy_encrypt toy_decrypt write_key read_key
toy_open_ssl = record {
  public_encrypt = λ pad. toy_encrypt;
  public_decrypt = toy_decrypt;
  private_encrypt = toy_encrypt;
  private_decrypt = toy_decrypt;
  rsa_size = λ key. 256;
  generate_key = λ entropy. entropy;
  read_public_key = read_key;
  write_public_key = write_key;
  read_private_key = λ path password. ok none;
  error_string = codes "toy";
}

toy_decrypt-toy_encrypt :
    (key : ℕ) (message cipher : Bytes)
    → IsBytes message
    → toy_encrypt key message ≡ some cipher
    → IsBytes cipher × (toy_decrypt key cipher ≡ some message)
unfolding toy_encrypt toy_decrypt
toy_decrypt-toy_encrypt key message [] h e = cc
toy_decrypt-toy_encrypt key message (k ∷ rest) h e =
    let same_key : key % 256 ≡ k = ground (arith, e) in
    let same_text : message ≡ rest = ground (arith, e) in
    ((ground (arith, same_key), subst IsBytes same_text h), ground (arith, same_key, same_text))

-- Every key has its private half.
pub toy_open_ssl_laws : OpenSslLaws toy_open_ssl (λ key. Unit {0})
unfolding toy_open_ssl toy_encrypt read_key write_key
toy_open_ssl_laws = record {
  encrypts = λ pad key message bytes room. ((key % 256) ∷ message, refl);
  decrypts =
      λ pad key message cipher bytes private e. toy_decrypt-toy_encrypt key message cipher bytes e;
  generates = λ entropy. tt;
  loads = λ path password key e. tt;
  reads = λ key.
      (key % 256 / 2 * 2 + key % 2, refl, (λ pad m. ap (λ k. some (k ∷ m)) (ground arith)), refl);
  write-IsAscii = λ key. (omega arith, (omega arith, tt));
}
