-- ===== src/Crypto/Exceptions.antt =====
-- The decoders and the operations on keys throw no `ConnectionException`.
use p2psc.Prelude.{ℕ, Bool, true, false, Option, none, some, Bytes, codes, if◌then◌else◌}
use p2psc.Errors.{Result, ok, throw, ◌>>=◌}
use p2psc.Crypto.OpenSsl.{OpenSsl, Base64}
use p2psc.Crypto.Rsa.{check_error, public_encrypt, private_decrypt, no_private_key}
use p2psc.Crypto.Key.{Keypair, PublicKey, encrypt}
use p2psc.Crypto.Key
use p2psc.Net.Run.{lift}
use p2psc.Net.Run.Throws.{IsPlain, ResultThrows, Throws, Throws-lift}

module _ {A B : Type 0} where
  bind-Plain :
      (r : Result A) (f : A → Result B)
      → ResultThrows IsPlain r
      → ((a : A) → ResultThrows IsPlain (f a))
      → ResultThrows IsPlain (r >>= f)
  bind-Plain (ok a) f h k = k a
  bind-Plain (throw e) f h k = h

module _ ⦃s : OpenSsl⦄ ⦃b : Base64⦄ where
  check_error-Plain :
      (method : Bytes) (o : Option Bytes) → ResultThrows IsPlain (check_error method o)
  unfolding check_error
  check_error-Plain method none = tt
  check_error-Plain method (some buf) = tt

  encrypt-Plain : (pad : ℕ) (k : PublicKey) (m : Bytes) → ResultThrows IsPlain (encrypt pad k m)
  unfolding encrypt public_encrypt
  encrypt-Plain pad k m =
      bind-Plain {B = Bytes}
        (check_error (codes "RSA_public_encrypt") (s.public_encrypt pad k.pki.key m))
        (λ buf. ok (b.base64_encode buf))
        (check_error-Plain (codes "RSA_public_encrypt") (s.public_encrypt pad k.pki.key m))
        λ buf. tt

  decrypt_if :
      (b : Bool) (r : Result Bytes)
      → ResultThrows IsPlain r
      → ResultThrows IsPlain (if b then r else no_private_key)
  unfolding no_private_key
  decrypt_if true r h = h
  decrypt_if false r h = tt

  private_decrypt-Plain :
      (k : Keypair) (text : Bytes) → ResultThrows IsPlain (Key.private_decrypt k text)
  unfolding Key.private_decrypt private_decrypt
  private_decrypt-Plain k text = decrypt_if k.pki.has_private_key _ (
      check_error-Plain (codes "RSA_private_decrypt")
        (s.private_decrypt k.pki.key (b.base64_decode text)))

  pub encrypt-Throws :
      (pad : ℕ) (k : PublicKey) (m : Bytes) → Throws IsPlain (lift (encrypt pad k m))
  encrypt-Throws pad k m = Throws-lift _ (encrypt-Plain pad k m)

  pub private_decrypt-Throws :
      (k : Keypair) (text : Bytes) → Throws IsPlain (lift (Key.private_decrypt k text))
  private_decrypt-Throws k text = Throws-lift _ (private_decrypt-Plain k text)
