-- ===== src/Message/Format/Exceptions.antt =====
-- The decoders throw a `MessageException` or return.
use p2psc.Prelude.{Bytes, inl, inr, ◌⊎◌}
use p2psc.Message.Codec.{JsonLibrary, Value}
use p2psc.Message.Format.{
  Payload, format_codec, anonymous_codec, decoded, decode, decoded_type, decode_message_type,
}
use p2psc.Net.Run.{lift}
use p2psc.Net.Run.Throws.{IsPlain, ResultThrows, Throws, Throws-lift}

decoded-Plain :
    (T : Type 0) ⦃m : Payload T⦄ ⦃j : JsonLibrary⦄ (r : Bytes ⊎ Value (format_codec m.codec))
    → ResultThrows IsPlain (decoded {T = T} r)
unfolding decoded
decoded-Plain T (inr (type, (payload, u))) = tt
decoded-Plain T (inl what) = tt

decoded_type-Plain :
    ⦃j : JsonLibrary⦄ (r : Bytes ⊎ Value anonymous_codec) → ResultThrows IsPlain (decoded_type r)
unfolding decoded_type
decoded_type-Plain (inr (type, u)) = tt
decoded_type-Plain (inl what) = tt

module _ ⦃j : JsonLibrary⦄ (raw : Bytes) where
  pub decode-Throws : {T : Type 0} ⦃m : Payload T⦄ → Throws IsPlain (lift (decode {T = T} raw))
  unfolding decode
  decode-Throws {T = T} ⦃m = m⦄ =
      Throws-lift _ (decoded-Plain T (j.decode (format_codec m.codec) raw))

  pub decode_message_type-Throws : Throws IsPlain (lift (decode_message_type raw))
  unfolding decode_message_type
  decode_message_type-Throws = Throws-lift _ (decoded_type-Plain (j.decode anonymous_codec raw))
