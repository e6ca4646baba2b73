-- ===== src/Utf8/Tests.antt =====
-- The UTF-8 theorems at concrete bytes: the euro sign, and a line with a NUL and a stray byte.
use swift_cmark.Base.{Bytes, IsBytes, [], arith, inl, length, pos, refl, some, ◌++◌, ◌↔◌, ◌∷◌, ◌≡◌}
use swift_cmark.Utf8.{iterate, encode_char, valid, check, replacement}
use swift_cmark.Utf8.RoundTrip.{iterate-encode_char}
use swift_cmark.Utf8.Valid.{decoded_length, valid_iff-iterate}
use swift_cmark.Utf8.Check.{Sanitized, IsClean}
use swift_cmark.Utf8.Check.Loop.{check-Sanitized, check-IsClean}

abbrev euro : Bytes
euro = 0xe2 ∷ 0x82 ∷ 0xac ∷ []

abbrev mixed : Bytes
mixed = b'a' ∷ 0 ∷ 0xe2 ∷ 0x82 ∷ 0xac ∷ 0x82 ∷ b'b' ∷ []

abbrev cleaned : Bytes
cleaned = b'a' ∷ (replacement ++ (euro ++ (replacement ++ b'b' ∷ [])))

euro-IsBytes : IsBytes (euro ++ b'!' ∷ [])
euro-IsBytes = (omega arith, (omega arith, (omega arith, (omega arith, tt))))

iterate-euro : iterate (euro ++ b'!' ∷ []) ≡ some (3, 0x20ac)
unfolding iterate
iterate-euro = refl

iterate_encode_example :
    iterate (encode_char 0x20ac ++ b'!' ∷ []) ≡ some (length (encode_char 0x20ac), 0x20ac)
iterate_encode_example = iterate-encode_char 0x20ac (b'!' ∷ []) (record {
  below = omega arith;
  not_surrogate = inl (omega arith);
  not_fffe = omega arith;
  not_ffff = omega arith;
})

valid_example : (valid (euro ++ b'!' ∷ []) ≡ pos 3) ↔ (decoded_length (euro ++ b'!' ∷ []) ≡ some 3)
valid_example = valid_iff-iterate (euro ++ b'!' ∷ []) 3 euro-IsBytes (λ e. ground (arith, e))

check-mixed : check mixed ≡ cleaned
unfolding check valid
check-mixed = refl

sanitized_example : Sanitized mixed (check mixed)
sanitized_example = check-Sanitized mixed

check-IsClean_example : IsClean (check mixed)
check-IsClean_example = check-IsClean mixed
