-- ===== src/Utf8/RoundTrip.antt =====
-- Decoding and encoding undo one another.
use swift_cmark.Base.{
  Bytes, IsBytes, [], arith, length, some, take, ℕ, ◌++◌, ◌<◌, ◌∷◌, ◌≡◌, ◌≢◌, ◌≤◌, ◌⊎◌,
}
use swift_cmark.Utf8.{iterate, encode_char}

-- A Unicode scalar value that `cmark_utf8proc_encode_char` encodes as RFC 3629 says: U+FFFE and U+FFFF
-- become the bytes FE and FF.
pub record IsEncodable (uc : ℕ) : Type 0 where
  pub below : uc < 0x110000
  pub not_surrogate : (uc < 0xd800) ⊎ (0xe000 ≤ uc)
  pub not_fffe : uc ≢ 0xfffe
  pub not_ffff : uc ≢ 0xffff

-- Decoding the encoding of a Unicode scalar value other than U+FFFE and U+FFFF, with any bytes
-- behind it, gives the length of the encoding and the value.
pub iterate-encode_char :
    (uc : ℕ) (rest : Bytes)
    → IsEncodable uc
    → iterate (encode_char uc ++ rest) ≡ some (length (encode_char uc), uc)
unfolding iterate encode_char
iterate-encode_char uc rest v = ground arith

-- Where a text of bytes decodes to a code point other than U+FFFE and U+FFFF, encoding the code
-- point gives back exactly the bytes that were consumed.
pub encode_char-iterate :
    (s : Bytes) (n uc : ℕ)
    → IsBytes s
    → iterate s ≡ some (n, uc)
    → uc ≢ 0xfffe
    → uc ≢ 0xffff
    → encode_char uc ≡ take n s
unfolding iterate encode_char
encode_char-iterate [] n uc h e f g = ground arith
encode_char-iterate (a ∷ []) n uc h e f g = ground arith
encode_char-iterate (a ∷ b ∷ []) n uc h e f g = ground arith
encode_char-iterate (a ∷ b ∷ c ∷ []) n uc h e f g = ground arith
encode_char-iterate (a ∷ b ∷ c ∷ d ∷ t) n uc h e f g = ground arith

-- Only Unicode scalar values are decoded.
pub iterate_scalar :
    (s : Bytes) (n uc : ℕ)
    → IsBytes s
    → iterate s ≡ some (n, uc)
    → (uc < 0x110000) × ((uc < 0xd800) ⊎ (0xe000 ≤ uc)) × (0 < n) × (n ≤ length s)
unfolding iterate
iterate_scalar [] n uc h e = ground arith
iterate_scalar (a ∷ []) n uc h e = ground arith
iterate_scalar (a ∷ b ∷ []) n uc h e = ground arith
iterate_scalar (a ∷ b ∷ c ∷ []) n uc h e = ground arith
iterate_scalar (a ∷ b ∷ c ∷ d ∷ t) n uc h e = ground arith
