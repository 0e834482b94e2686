-- ===== src/Examples/FileWitnesses.antt =====
-- The theorems on the log and on the files with keys at concrete arguments.
use p2psc.Prelude.{
  ℕ, ◌≡◌, refl, arith, true, none, some, [], ◌∷◌, ◌++◌, Bytes, codes, bytes_eq, if◌then◌else◌,
}
use p2psc.Errors.{ok, throw, crypto_exception}
use p2psc.Crypto.Rsa.{Rsa}
use p2psc.Crypto.Files.{
  PemWriter, Disk, write_to_file_encrypted, write_to_file_encrypted_written,
  write_to_file_encrypted_emptied,
}
use p2psc.Log.{strip}
use p2psc.Log.Lines.{IsStripped, newlines, strip_lem}

-- OpenSSL knows one cipher, and a key is written as one character.
instance abbrev toy_writer : PemWriter
toy_writer = record {
  opens = λ path. true;
  cipher_by_name = λ name. if bytes_eq name (codes "aes128") then some 1 else none;
  private_key_text = λ key protection. some (key ∷ []);
}

abbrev a_key : Rsa
a_key = record { key = 5; has_private_key = true }

abbrev a_disk : Disk
a_disk path = some (codes "old")

write_to_file_encrypted_written_example :
    ((write_to_file_encrypted a_key (codes "key") (codes "secret") (codes "aes128") a_disk).0
      ≡ ok tt)
    × ((other : Bytes)
        → (write_to_file_encrypted a_key (codes "key") (codes "secret") (codes "aes128") a_disk).1
            other
          ≡ (if bytes_eq other (codes "key") then some (5 ∷ []) else a_disk other))
unfolding bytes_eq
write_to_file_encrypted_written_example =
    write_to_file_encrypted_written a_key (codes "key") (codes "secret") (codes "aes128") a_disk 1
      (5 ∷ []) (omega arith) refl refl refl

write_to_file_encrypted_emptied_example :
    ((write_to_file_encrypted a_key (codes "key") (codes "secret") (codes "rot13") a_disk).0
      ≡ throw (crypto_exception (codes "Unknown cipher \"rot13\".")))
    × ((write_to_file_encrypted a_key (codes "key") (codes "secret") (codes "rot13") a_disk).1
          (codes "key")
        ≡ some [])
unfolding bytes_eq
write_to_file_encrypted_emptied_example =
    write_to_file_encrypted_emptied a_key (codes "key") (codes "secret") (codes "rot13") a_disk
      (omega arith) refl refl

strip_lem_example :
    IsStripped (strip (codes "done\n\n"))
    × ((n : ℕ) × (codes "done\n\n" ≡ strip (codes "done\n\n") ++ newlines n))
strip_lem_example = strip_lem (codes "done\n\n")
