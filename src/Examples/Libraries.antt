-- ===== src/Examples/Libraries.antt =====
-- Small stand-ins for spotify-json, OpenSSL and vendor/base64 that keep their laws.
use mathlib.Core.List.{append-nil, append_assoc}
use p2psc.Prelude.{
  ℕ, ◌<◌, ◌≡◌, refl, ◌∙◌, ap, subst, arith, ◌==◌, if◌then◌else◌, Option, none, some, [], ◌∷◌, ◌++◌,
  ◌⊎◌, inl, inr, Bytes, All,
}
use p2psc.Message.Codec.{
  Codec, uint8, uint16, text, end, required, Value, InRange, JsonLibrary, JsonLaws,
}

-- A number stands for itself, a text ends with 128, and the fields follow each other.
toy_encode : (c : Codec) → Value c → Bytes
toy_encode uint8 n = n ∷ []
toy_encode uint16 n = n ∷ []
toy_encode text s = s ++ (128 ∷ [])
toy_encode end v = []
toy_encode (required k c rest) (a, v) = toy_encode c a ++ toy_encode rest v

consed : ℕ → Option (Bytes × Bytes) → Option (Bytes × Bytes)
consed a none = none
consed a (some (s, rest)) = some (a ∷ s, rest)

take_text : Bytes → Option (Bytes × Bytes)
unfolding consed
take_text [] = none
take_text (a ∷ s) = let rest = take_text s in if a == 128 then some ([], s) else consed a rest

paired : {A B : Type 0} → A → Option (B × Bytes) → Option ((A × B) × Bytes)
paired a none = none
paired a (some (b, rest)) = some ((a, b), rest)

both : {A B : Type 0} → Option (A × Bytes) → (Bytes → Option (B × Bytes)) → Option ((A × B) × Bytes)
unfolding paired
both none f = none
both (some (a, s)) f = paired a (f s)

parse : (c : Codec) → Bytes → Option (Value c × Bytes)
unfolding take_text both
parse uint8 (n ∷ s) = some (n, s)
parse uint8 [] = none
parse uint16 (n ∷ s) = some (n, s)
parse uint16 [] = none
parse text s = take_text s
parse end s = some (tt, s)
parse (required k c rest) s = both (parse c s) (parse rest)

take_text-append :
    (s rest : Bytes) → All (λ b. b < 128) s → take_text ((s ++ (128 ∷ [])) ++ rest) ≡ some (s, rest)
unfolding take_text
take_text-append [] rest h = refl
take_text-append (a ∷ s) rest h = ground (arith, h.0, take_text-append s rest h.1)

parse-toy_encode :
    (c : Codec) (v : Value c) (s : Bytes)
    → InRange c v
    → parse c (toy_encode c v ++ s) ≡ some (v, s)
unfolding parse both paired toy_encode
parse-toy_encode uint8 n s h = refl
parse-toy_encode uint16 n s h = refl
parse-toy_encode text v s h = take_text-append v s h
parse-toy_encode end v s h = refl
parse-toy_encode (required k c rest) (a, v) s h =
    ap (parse (required k c rest)) (append_assoc (toy_encode c a) (toy_encode rest v) s)
    ∙ ap (λ x. both x (parse rest)) (parse-toy_encode c a (toy_encode rest v ++ s) h.0)
    ∙ ap (paired a) (parse-toy_encode rest v s h.1)

toy_decoded : {A : Type 0} → Option (A × Bytes) → Bytes ⊎ A
toy_decoded none = inl []
toy_decoded (some (v, rest)) = inr v

-- The rest of the text is ignored, as fields without a member are.
toy_decode : (c : Codec) → Bytes → Bytes ⊎ Value c
unfolding parse toy_decoded
toy_decode c s = toy_decoded (parse c s)

toy_decode-append :
    (c : Codec) (v : Value c) (s : Bytes) → InRange c v → toy_decode c (toy_encode c v ++ s) ≡ inr v
unfolding toy_decode toy_decoded
toy_decode-append c v s h = ap toy_decoded (parse-toy_encode c v s h)

instance unfoldable pub toy_json : JsonLibrary
unfolding toy_encode toy_decode
toy_json = record { encode = toy_encode; decode = toy_decode }

pub toy_json_laws : JsonLaws toy_json
unfolding toy_json toy_encode toy_decode toy_decoded parse both paired
toy_json_laws = record {
  decode-encode = λ c v valid h.
      subst (λ x. toy_decode c x ≡ inr v) (append-nil (toy_encode c v))
        (toy_decode-append c v [] h);
  decode_first = λ k c rest v valid h.
      ap (λ x. toy_decoded (both x (parse end))) (parse-toy_encode c v.0 (toy_encode rest v.1) h.0);
}
