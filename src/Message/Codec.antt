-- ===== src/Message/Codec.antt =====
-- What the message headers use of spotify-json: an object codec is a list of required fields. The
-- library itself is a parameter, with what its documentation says of encoding and decoding.
use p2psc.Prelude.{ℕ, ◌<◌, ◌^◌, ◌≡◌, ◌⊎◌, inr, false, Bytes, bytes_eq, All}

-- `codec::object<T>()` is `end`, and each `codec.required(name, member)` adds a field behind the
-- others. An integer codec has the width of the member.
pub data Codec : Type 0 where
  uint8 uint16 text end : Codec
  required : Bytes → Codec → Codec → Codec

-- The members that a codec reads and writes.
abbrev pub Value : Codec → Type 0
Value uint8 = ℕ
Value uint16 = ℕ
Value text = Bytes
Value end = Unit {0}
Value (required k c rest) = Value c × Value rest

-- The numbers fit their members, and the texts are ASCII.
abbrev pub InRange : (c : Codec) → Value c → Type 0
InRange uint8 n = n < 2 ^ 8
InRange uint16 n = n < 2 ^ 16
InRange text s = All (λ b. b < 128) s
InRange end v = Unit {0}
InRange (required k c rest) v = InRange c v.0 × InRange rest v.1

abbrev pub IsObject : Codec → Type 0
IsObject end = Unit {0}
IsObject (required k c rest) = Unit {0}
IsObject _ = ⊥

-- No field of the object is called `k`.
abbrev pub Lacks : Bytes → Codec → Type 0
Lacks k (required j c rest) = (bytes_eq k j ≡ false) × Lacks k rest
Lacks k _ = Unit {0}

-- An object codec with distinct field names, also in the objects inside.
abbrev pub IsCodec : Codec → Type 0
IsCodec (required k c rest) = IsCodec c × IsObject rest × Lacks k rest × IsCodec rest
IsCodec _ = Unit {0}

-- `spotify::json::encode` and `decode`; a failed `decode` throws `decode_exception`, whose `what()`
-- is on the left.
pub record JsonLibrary : Type 0 where
  pub encode : (c : Codec) → Value c → Bytes
  pub decode : (c : Codec) → Bytes → Bytes ⊎ Value c

-- Decoding what was encoded gives the value back, and a decoder ignores the fields that its codec
-- does not name.
pub record JsonLaws (j : JsonLibrary) : Type 0 where
  pub decode-encode :
      (c : Codec) (v : Value c) → IsCodec c → InRange c v → j.decode c (j.encode c v) ≡ inr v
  pub decode_first :
      (k : Bytes) (c rest : Codec) (v : Value (required k c rest))
      → IsCodec (required k c rest)
      → InRange (required k c rest) v
      → j.decode (required k c end) (j.encode (required k c rest) v) ≡ inr (v.0, tt)
