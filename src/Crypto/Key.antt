-- ===== src/Crypto/Key.antt =====
-- src/key: key pairs and public keys are wrappers of an `Rsa` object.
use p2psc.Prelude.{ℕ, none, Bytes}
use p2psc.Errors.{Result, ok, ◌>>=◌}
use p2psc.Crypto.OpenSsl.{OpenSsl, Base64}
use p2psc.Crypto.Rsa.{Rsa}
use p2psc.Crypto.Rsa

pub record Keypair : Type 0 where
  pub pki : Rsa

pub record PublicKey : Type 0 where
  pub pki : Rsa

module _ ⦃s : OpenSsl⦄ where
  unfoldable pub generate_keypair : ℕ → Keypair
  generate_keypair entropy = record { pki = Rsa.generate entropy }

  unfoldable pub from_pem : Bytes → Result Keypair
  from_pem path = do r ← Rsa.from_pem path none; ok (record { pki = r })

  unfoldable pub get_serialised_public_key : Keypair → Bytes
  unfolding Rsa.get_public_key_string
  get_serialised_public_key k = Rsa.get_public_key_string k.pki

  unfoldable pub from_string : Bytes → Result PublicKey
  unfolding Rsa.from_public_key
  from_string string = do r ← Rsa.from_public_key string; ok (record { pki = r })

  -- The pair that is generated for the key is kept with it.
  unfoldable pub generate_public_key : ℕ → PublicKey
  generate_public_key entropy = record { pki = Rsa.generate entropy }

  unfoldable pub serialise : PublicKey → Bytes
  unfolding Rsa.get_public_key_string
  serialise k = Rsa.get_public_key_string k.pki

module _ ⦃s : OpenSsl⦄ ⦃b : Base64⦄ where
  unfoldable pub public_encrypt : ℕ → Keypair → Bytes → Result Bytes
  public_encrypt pad k message = Rsa.public_encrypt pad k.pki message

  unfoldable pub private_decrypt : Keypair → Bytes → Result Bytes
  private_decrypt k encrypted = Rsa.private_decrypt k.pki encrypted

  unfoldable pub encrypt : ℕ → PublicKey → Bytes → Result Bytes
  encrypt pad k message = Rsa.public_encrypt pad k.pki message
