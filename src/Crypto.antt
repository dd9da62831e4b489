-- ===== src/Crypto.antt =====
-- internal/cryptoutil/crypto.go: the random identifiers; and internal/securejson/securejson.go: the
-- canonical text of a value, its hash, and strict decoding.
pub mod Slices
pub mod Identifier
use shudo.Prelude.{
  ℕ, ◌+◌, ◌-◌, ◌==◌, ◌/◌, ◌%◌, Bool, true, false, not, Option, none, some, List, [], ◌∷◌, ◌++◌,
  Bytes, codes, take, drop, if◌then◌else◌, ltb, Result, ok, err,
}

unfoldable pub hex_digit : ℕ → ℕ
hex_digit n = if ltb n 10 then b'0' + n else b'a' + (n - 10)

-- `%x` of bytes, and `hex.EncodeToString`: two digits for each.
unfoldable pub hex : Bytes → Bytes
unfolding hex_digit
hex [] = []
hex (byte ∷ s) = hex_digit (byte / 16) ∷ hex_digit (byte % 16) ∷ hex s

-- An assignment to one byte.
unfoldable pub update_at : ℕ → (ℕ → ℕ) → Bytes → Bytes
update_at n f [] = []
update_at n f (b ∷ s) = let rest = update_at (n - 1) f s in if n == 0 then f b ∷ s else b ∷ rest

-- `value[6]` and `value[8]` with the bits of the version and of the variant.
unfoldable pub with_version : Bytes → Bytes
unfolding update_at
with_version value = update_at 8 (λ b. b % 64 + 0x80) (update_at 6 (λ b. b % 16 + 0x40) value)

unfoldable pub uuid_text : Bytes → Bytes
unfolding hex
uuid_text v =
    hex (take 4 v)
    ++ codes "-"
    ++ hex (take 2 (drop 4 v))
    ++ codes "-"
    ++ hex (take 2 (drop 6 v))
    ++ codes "-"
    ++ hex (take 2 (drop 8 v))
    ++ codes "-"
    ++ hex (take 6 (drop 10 v))

-- `random n` is what `io.ReadFull` has of the source of randomness for `n` bytes.
unfoldable pub uuid : (ℕ → Option Bytes) → Option Bytes
unfolding uuid_text with_version
uuid random = elim (random 16) [ none ↦ none | some value ↦ some (uuid_text (with_version value)) ]

-- `encode` is the encoding `base64.RawURLEncoding`.
unfoldable pub nonce : (ℕ → Option Bytes) → (Bytes → Bytes) → ℕ → Option Bytes
nonce random encode bytes = elim (random bytes) [ none ↦ none | some value ↦ some (encode value) ]

-- `marshal` is `json.Marshal` and `transform` is `jcs.Transform`.
unfoldable pub marshal_canonical {ℓ} :
    {A : Type ℓ} → (A → Option Bytes) → (Bytes → Option Bytes) → A → Option Bytes
marshal_canonical marshal transform value = elim (marshal value) [
  | none ↦ none
  | some raw ↦ transform raw
]

-- `digest` is `sha256.Sum256`.
unfoldable pub canonical_hash {ℓ} :
    {A : Type ℓ} → (A → Option Bytes) → (Bytes → Option Bytes) → (Bytes → Bytes) → A → Option Bytes
unfolding marshal_canonical hex
canonical_hash marshal transform digest value = elim (marshal_canonical marshal transform value) [
  | none ↦ none
  | some canonical ↦ some (hex (digest canonical))
]

-- What `Decode` finds next in a text: a value and the rest, the end, or an error.
pub data Decoded {ℓ} (A : Type ℓ) : Type ℓ where
  next_value : A → Bytes → Decoded A
  at_end malformed : Decoded A

pub data DecodeError : Type 0 where
  bad_value trailing_data : DecodeError

no_more {ℓ} : {A : Type ℓ} {B : Type 0} → A → Decoded B → Result DecodeError A
no_more a at_end = ok a
no_more a _ = err trailing_data

-- `decode` is a decoder that refuses unknown fields, and `decode_empty` one of the empty struct.
unfoldable pub decode_strict {ℓ} :
    {A : Type ℓ} → (Bytes → Decoded A) → (Bytes → Decoded (Unit {0})) → Bytes → Result DecodeError A
unfolding no_more
decode_strict decode decode_empty data' = elim (decode data') [
  | next_value a rest ↦ no_more a (decode_empty rest)
  | at_end ↦ err bad_value
  | malformed ↦ err bad_value
]
