-- ===== src/Ctype.antt =====
-- src/cmark_ctype.c: the classes of ASCII characters. The table of 256 classes is read as ranges.
use swift_cmark.Base.{ℕ, Bool, ◌||◌, ◌==◌, within, if◌then◌else◌}

-- 1 = space, 2 = punct, 3 = digit, 4 = alpha, 0 = other
pub ctype_class : ℕ → ℕ
ctype_class c =
    if c == 9 || c == 10 || c == 13 || c == 32
    then 1
    else if within 0x30 0x39 c
    then 3
    else if within 0x41 0x5a c || within 0x61 0x7a c
    then 4
    else if within 0x21 0x7e c
    then 2
    else 0

unfoldable pub isspace : ℕ → Bool
unfolding ctype_class
isspace c = ctype_class c == 1

unfoldable pub ispunct : ℕ → Bool
unfolding ctype_class
ispunct c = ctype_class c == 2

unfoldable pub isalnum : ℕ → Bool
unfolding ctype_class
isalnum c = let result = ctype_class c in result == 3 || result == 4

unfoldable pub isdigit : ℕ → Bool
unfolding ctype_class
isdigit c = ctype_class c == 3

unfoldable pub isalpha : ℕ → Bool
unfolding ctype_class
isalpha c = ctype_class c == 4
