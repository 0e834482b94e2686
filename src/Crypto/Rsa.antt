-- ===== src/Crypto/Rsa.antt =====
-- src/crypto/rsa.cpp and src/crypto/rsa.h, except `write_to_file`.
use p2psc.Prelude.{
  ℕ, ◌++◌, Bool, true, false, Option, none, some, [], Bytes, codes, to_string, length, ltb,
  if◌then◌else◌,
}
use p2psc.Errors.{Result, ok, throw, crypto_exception, ◌>>=◌}
use p2psc.Crypto.OpenSsl.{OpenSsl, Base64}

pub record Rsa : Type 0 where
  pub key : ℕ
  pub has_private_key : Bool

-- `password_callback`: the password, unless it is longer than the buffer.
unfoldable pub password_callback : Bytes → ℕ → Result Bytes
password_callback pw size =
    if ltb size (length pw)
    then throw (
        crypto_exception (
          codes "Password length ("
          ++ (to_string (length pw)
              ++ (codes ") greater than buffer size (" ++ (to_string size ++ codes ").")))))
    else ok pw

module _ ⦃s : OpenSsl⦄ where
  get_openssl_error_str : Bytes
  get_openssl_error_str = codes "OpenSSL exception: " ++ s.error_string

  -- `check_error` on the size -1, and the bytes in the buffer otherwise.
  unfoldable pub check_error : Bytes → Option Bytes → Result Bytes
  unfolding get_openssl_error_str
  check_error method none =
      throw (crypto_exception (method ++ (codes " failed: " ++ get_openssl_error_str)))
  check_error method (some buf) = ok buf

  -- `string_to_key` and `RSA::from_public_key`.
  unfoldable pub key_or_throw : Bytes → Option ℕ → Result ℕ
  key_or_throw what none = throw (crypto_exception what)
  key_or_throw what (some key) = ok key

  unfoldable pub from_public_key : Bytes → Result Rsa
  unfolding key_or_throw
  from_public_key public_key = do
    key ←
        key_or_throw (codes "Could not load RSA public key from string")
          (s.read_public_key public_key)
    ok (record { key = key; has_private_key = false })

  abbrev password_or_empty : Option Bytes → Bytes
  password_or_empty none = []
  password_or_empty (some password) = password

  -- `file_to_key`.
  unfoldable pub file_to_key : Bytes → Option Bytes → Result ℕ
  unfolding key_or_throw get_openssl_error_str password_callback
  file_to_key path password = do
    key ← s.read_private_key path (password_callback (password_or_empty password))
    key_or_throw
        (codes "Could not restore key from file: "
          ++ (path ++ (codes ". " ++ get_openssl_error_str)))
        key

  -- The two overloads of `RSA::from_pem`.
  unfoldable pub from_pem : Bytes → Option Bytes → Result Rsa
  unfolding file_to_key
  from_pem path password = do
    key ← file_to_key path password
    ok (record { key = key; has_private_key = true })

  unfoldable pub generate : ℕ → Rsa
  generate entropy = record { key = s.generate_key entropy; has_private_key = true }

  unfoldable pub get_public_key_string : Rsa → Bytes
  get_public_key_string r = s.write_public_key r.key

-- The operations throw when the object has no private key and needs one, and when OpenSSL fails.
module _ ⦃s : OpenSsl⦄ ⦃b : Base64⦄ where
  unfoldable pub public_encrypt : ℕ → Rsa → Bytes → Result Bytes
  unfolding check_error
  public_encrypt pad r key_str = do
    buf ← check_error (codes "RSA_public_encrypt") (s.public_encrypt pad r.key key_str)
    ok (b.base64_encode buf)

  unfoldable pub public_decrypt : Rsa → Bytes → Result Bytes
  unfolding check_error
  public_decrypt r encrypted =
      check_error (codes "RSA_public_decrypt") (s.public_decrypt r.key (b.base64_decode encrypted))

  unfoldable pub no_private_key : Result Bytes
  no_private_key = throw (crypto_exception (codes "This RSA structure has no private key"))

  unfoldable pub private_decrypt : Rsa → Bytes → Result Bytes
  unfolding check_error no_private_key
  private_decrypt r encrypted =
      if r.has_private_key
      then check_error (codes "RSA_private_decrypt")
          (s.private_decrypt r.key (b.base64_decode encrypted))
      else no_private_key

  unfoldable pub private_encrypt : Rsa → Bytes → Result Bytes
  unfolding check_error no_private_key
  private_encrypt r key_str =
      if r.has_private_key
      then (do
        buf ← check_error (codes "RSA_private_encrypt") (s.private_encrypt r.key key_str)
        ok (b.base64_encode buf))
      else no_private_key
