-- ===== src/Errors.antt =====
-- The errors of the library: include/p2psc/error.h, include/p2psc/connection_exception.h,
-- include/p2psc/socket/socket_exception.h, include/p2psc/message/message_exception.h,
-- include/p2psc/crypto/crypto_exception.h, and the exceptions of the language that the code throws.
use p2psc.Prelude.{◌==◌, if◌then◌else◌, ◌∷◌, Bool, true, false, Option, none, some, [], Bytes}

pub data Kind : Type 0 where
  unknown peer_unsupported_protocol_version mediator_connect_failure : Kind

-- The default constructor leaves `_kind` indeterminate and `_reason` empty.
pub data Error : Type 0 where
  unset : Error
  error : Kind → Bytes → Error

-- `operator bool`.
unfoldable pub is_set : Error → Bool
is_set unset = false
is_set (error kind reason) = true

-- `none` stands for the indeterminate value.
unfoldable pub kind : Error → Option Kind
kind unset = none
kind (error k reason) = some k

unfoldable pub reason : Error → Bytes
reason unset = []
reason (error k r) = r

-- `runtime_error_pointer` is `throw new std::runtime_error(…)`, which throws a pointer.
pub data Exception : Type 0 where
  runtime_error socket_exception message_exception crypto_exception : Bytes → Exception
  connection_exception : Kind → Bytes → Exception
  runtime_error_pointer : Bytes → Exception

-- What a `std::string` takes from `what()`, a C string: the characters before the first NUL.
unfoldable pub c_string : Bytes → Bytes
c_string [] = []
c_string (c ∷ s) = let rest = c_string s in if c == 0 then [] else c ∷ rest

-- A pure function that may throw.
pub data Result {ℓ} (A : Type ℓ) : Type ℓ where
  ok : A → Result A
  throw : Exception → Result A

infixl 5 ◌>>=◌
abbrev pub ◌>>=◌ {ℓ κ} : {A : Type ℓ} {B : Type κ} → Result A → (A → Result B) → Result B
ok a >>= f = f a
throw e >>= f = throw e
