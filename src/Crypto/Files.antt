-- ===== src/Crypto/Files.antt =====
-- src/crypto/rsa.cpp: the two overloads of `write_to_file`.
use p2psc.Prelude.{
  ℕ, ◌≡◌, refl, ap, ◌∙◌, ◌≤◌, ◌++◌, Bool, true, false, Option, none, some, [], Bytes, codes,
  to_string, length, ltb, bytes_eq, bytes_eq_refl, if◌then◌else◌, Bool-cases, inl, inr, arith,
}
use p2psc.Errors.{Result, ok, throw, crypto_exception}
use p2psc.Crypto.Rsa.{Rsa}

-- What the files hold.
abbrev pub Disk : Type 0
Disk = Bytes → Option Bytes

-- What the functions call of OpenSSL: whether `BIO_new_file` can open the file for writing, which
-- makes it empty, what `EVP_get_cipherbyname` finds, and the text that `PEM_write_bio_RSAPrivateKey`
-- writes, or `none` where it returns 0. `none` as cipher is the null pointer.
pub record PemWriter : Type 0 where
  pub opens : Bytes → Bool
  pub cipher_by_name : Bytes → Option ℕ
  pub private_key_text : ℕ → Option (ℕ × Bytes) → Option Bytes

abbrev pub min_password_length : ℕ
min_password_length = 4

unfoldable pub with_file : Bytes → Bytes → Disk → Disk
with_file path text disk other = if bytes_eq other path then some text else disk other

could_not_write : Disk → Result (Unit {0}) × Disk
could_not_write disk = (throw (crypto_exception (codes "Could not write to file.")), disk)

-- `PEM_write_bio_RSAPrivateKey` on the file that was opened, and the test of what it returns.
write_key : Bool → Bytes → Option Bytes → Disk → Result (Unit {0}) × Disk
unfolding could_not_write
write_key true path (some text) disk = (ok tt, with_file path text disk)
write_key true path none disk = could_not_write disk
write_key false path text disk = could_not_write disk

module _ ⦃w : PemWriter⦄ where
  -- `BIO_new_file(path.c_str(), "w")`
  new_file : Bytes → Disk → Disk
  new_file path disk = if w.opens path then with_file path [] disk else disk

  unfoldable pub write_to_file : Rsa → Bytes → Disk → Result (Unit {0}) × Disk
  unfolding write_key new_file
  write_to_file r path disk =
      write_key (w.opens path) path (w.private_key_text r.key none) (new_file path disk)

  with_cipher : Rsa → Bytes → Bytes → Bytes → Option ℕ → Disk → Result (Unit {0}) × Disk
  unfolding write_key
  with_cipher r path password cipher none disk =
      (throw (crypto_exception (codes "Unknown cipher \"" ++ (cipher ++ codes "\"."))), disk)
  with_cipher r path password cipher (some cipher_st) disk =
      write_key (w.opens path) path (w.private_key_text r.key (some (cipher_st, password))) disk

  -- The file is opened, and so emptied, before the cipher is looked up.
  unfoldable pub write_to_file_encrypted :
      Rsa → Bytes → Bytes → Bytes → Disk → Result (Unit {0}) × Disk
  unfolding with_cipher new_file
  write_to_file_encrypted r path password cipher disk =
      if ltb (length password) min_password_length
      then (
        throw (
            crypto_exception (
              codes "Password needs to be at least "
              ++ (to_string min_password_length ++ codes " characters long"))),
        disk,
      )
      else with_cipher r path password cipher (w.cipher_by_name cipher) (new_file path disk)

  long_enough :
      (r : Rsa) (path password cipher : Bytes) (disk : Disk)
      → min_password_length ≤ length password
      → w.opens path ≡ true
      → write_to_file_encrypted r path password cipher disk
        ≡ with_cipher r path password cipher (w.cipher_by_name cipher) (with_file path [] disk)
  unfolding write_to_file_encrypted new_file
  long_enough r path password cipher disk long opens =
      let enough : ltb (length password) 4 ≡ false = ground arith in rw enough (rw opens refl)

  written_lem :
      (path text : Bytes) (o : Bool) (t : Option Bytes) (disk : Disk)
      → o ≡ true
      → t ≡ some text
      → write_key o path t disk ≡ (ok tt, with_file path text disk)
  unfolding write_key
  written_lem path text true t disk h e = ap (λ t. write_key true path t disk) e
  written_lem path text false t disk h e = cc

  encrypted-eq :
      (r : Rsa) (path password cipher : Bytes) (disk : Disk) (cipher_st : ℕ) (text : Bytes)
      → min_password_length ≤ length password
      → w.opens path ≡ true
      → w.cipher_by_name cipher ≡ some cipher_st
      → w.private_key_text r.key (some (cipher_st, password)) ≡ some text
      → write_to_file_encrypted r path password cipher disk
        ≡ (ok tt, with_file path text (with_file path [] disk))
  unfolding with_cipher
  encrypted-eq r path password cipher disk cipher_st text long opens known written =
      long_enough r path password cipher disk long opens
      ∙ ap (λ c. with_cipher r path password cipher c (with_file path [] disk)) known
      ∙ written_lem path text (w.opens path) _ (with_file path [] disk) opens written

  with_file-twice :
      (path text : Bytes) (disk : Disk) (other : Bytes)
      → with_file path text (with_file path [] disk) other
        ≡ (if bytes_eq other path then some text else disk other)
  unfolding with_file
  with_file-twice path text disk other = elim (Bool-cases (bytes_eq other path)) [
    | inl same ↦ rw same refl
    | inr different ↦ rw different refl
  ]

  -- With a password of at least four characters, a known cipher and a file that can be opened,
  -- `write_to_file` returns, the key is in the file, and every other file is as it was.
  pub write_to_file_encrypted_written :
      (r : Rsa) (path password cipher : Bytes) (disk : Disk) (cipher_st : ℕ) (text : Bytes)
      → min_password_length ≤ length password
      → w.opens path ≡ true
      → w.cipher_by_name cipher ≡ some cipher_st
      → w.private_key_text r.key (some (cipher_st, password)) ≡ some text
      → ((write_to_file_encrypted r path password cipher disk).0 ≡ ok tt)
        × ((other : Bytes)
            → (write_to_file_encrypted r path password cipher disk).1 other
              ≡ (if bytes_eq other path then some text else disk other))
  write_to_file_encrypted_written r path password cipher disk cipher_st text long opens known
        written =
      let done = encrypted-eq r path password cipher disk cipher_st text long opens known written in
      (ap (λ x. x.0) done, λ other. ap (λ x. x.1 other) done ∙ with_file-twice path text disk other)

  -- With a cipher that OpenSSL does not know, `write_to_file` throws, and a file that can be opened has
  -- lost what it held.
  pub write_to_file_encrypted_emptied :
      (r : Rsa) (path password cipher : Bytes) (disk : Disk)
      → min_password_length ≤ length password
      → w.opens path ≡ true
      → w.cipher_by_name cipher ≡ none
      → ((write_to_file_encrypted r path password cipher disk).0
          ≡ throw (crypto_exception (codes "Unknown cipher \"" ++ (cipher ++ codes "\"."))))
        × ((write_to_file_encrypted r path password cipher disk).1 path ≡ some [])
  unfolding with_cipher with_file
  write_to_file_encrypted_emptied r path password cipher disk long opens unknown =
      let done =
        long_enough r path password cipher disk long opens
        ∙ ap (λ c. with_cipher r path password cipher c (with_file path [] disk)) unknown in
      (ap (λ x. x.0) done, ap (λ x. x.1 path) done ∙ rw (bytes_eq_refl path) refl)
