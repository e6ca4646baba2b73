-- ===== src/Utf8/Classes.antt =====
-- The classes of code points, and case folding. The table of `case_fold_switch.inc` is a parameter.
use swift_cmark.Base.{
  Bool, Bytes, List, [], drop, false, length, ltb, none, some, suc, within, zero, ℕ, ◌&&◌, ◌++◌,
  ◌==◌, ◌||◌, ◌∷◌,
}
use swift_cmark.Ctype.{ispunct}
use swift_cmark.Utf8.{iterate, replacement}

-- `cmark_utf8proc_is_space`
unfoldable pub is_space : ℕ → Bool
is_space uc =
    uc == 9
    || uc == 10
    || uc == 12
    || uc == 13
    || uc == 32
    || uc == 160
    || uc == 5760
    || within 8192 8202 uc
    || uc == 8239
    || uc == 8287
    || uc == 12288

-- The code points and ranges of code points that `cmark_utf8proc_is_punctuation` names, in its order.
abbrev pub punctuation : List (ℕ × ℕ)
punctuation =
    (161, 161)
    ∷ (167, 167)
    ∷ (171, 171)
    ∷ (182, 182)
    ∷ (183, 183)
    ∷ (187, 187)
    ∷ (191, 191)
    ∷ (894, 894)
    ∷ (903, 903)
    ∷ (1370, 1375)
    ∷ (1417, 1417)
    ∷ (1418, 1418)
    ∷ (1470, 1470)
    ∷ (1472, 1472)
    ∷ (1475, 1475)
    ∷ (1478, 1478)
    ∷ (1523, 1523)
    ∷ (1524, 1524)
    ∷ (1545, 1545)
    ∷ (1546, 1546)
    ∷ (1548, 1548)
    ∷ (1549, 1549)
    ∷ (1563, 1563)
    ∷ (1566, 1566)
    ∷ (1567, 1567)
    ∷ (1642, 1645)
    ∷ (1748, 1748)
    ∷ (1792, 1805)
    ∷ (2039, 2041)
    ∷ (2096, 2110)
    ∷ (2142, 2142)
    ∷ (2404, 2404)
    ∷ (2405, 2405)
    ∷ (2416, 2416)
    ∷ (2800, 2800)
    ∷ (3572, 3572)
    ∷ (3663, 3663)
    ∷ (3674, 3674)
    ∷ (3675, 3675)
    ∷ (3844, 3858)
    ∷ (3860, 3860)
    ∷ (3898, 3901)
    ∷ (3973, 3973)
    ∷ (4048, 4052)
    ∷ (4057, 4057)
    ∷ (4058, 4058)
    ∷ (4170, 4175)
    ∷ (4347, 4347)
    ∷ (4960, 4968)
    ∷ (5120, 5120)
    ∷ (5741, 5741)
    ∷ (5742, 5742)
    ∷ (5787, 5787)
    ∷ (5788, 5788)
    ∷ (5867, 5869)
    ∷ (5941, 5941)
    ∷ (5942, 5942)
    ∷ (6100, 6102)
    ∷ (6104, 6106)
    ∷ (6144, 6154)
    ∷ (6468, 6468)
    ∷ (6469, 6469)
    ∷ (6686, 6686)
    ∷ (6687, 6687)
    ∷ (6816, 6822)
    ∷ (6824, 6829)
    ∷ (7002, 7008)
    ∷ (7164, 7167)
    ∷ (7227, 7231)
    ∷ (7294, 7294)
    ∷ (7295, 7295)
    ∷ (7360, 7367)
    ∷ (7379, 7379)
    ∷ (8208, 8231)
    ∷ (8240, 8259)
    ∷ (8261, 8273)
    ∷ (8275, 8286)
    ∷ (8317, 8317)
    ∷ (8318, 8318)
    ∷ (8333, 8333)
    ∷ (8334, 8334)
    ∷ (8968, 8971)
    ∷ (9001, 9001)
    ∷ (9002, 9002)
    ∷ (10088, 10101)
    ∷ (10181, 10181)
    ∷ (10182, 10182)
    ∷ (10214, 10223)
    ∷ (10627, 10648)
    ∷ (10712, 10715)
    ∷ (10748, 10748)
    ∷ (10749, 10749)
    ∷ (11513, 11516)
    ∷ (11518, 11518)
    ∷ (11519, 11519)
    ∷ (11632, 11632)
    ∷ (11776, 11822)
    ∷ (11824, 11842)
    ∷ (12289, 12291)
    ∷ (12296, 12305)
    ∷ (12308, 12319)
    ∷ (12336, 12336)
    ∷ (12349, 12349)
    ∷ (12448, 12448)
    ∷ (12539, 12539)
    ∷ (42238, 42238)
    ∷ (42239, 42239)
    ∷ (42509, 42511)
    ∷ (42611, 42611)
    ∷ (42622, 42622)
    ∷ (42738, 42743)
    ∷ (43124, 43127)
    ∷ (43214, 43214)
    ∷ (43215, 43215)
    ∷ (43256, 43258)
    ∷ (43310, 43310)
    ∷ (43311, 43311)
    ∷ (43359, 43359)
    ∷ (43457, 43469)
    ∷ (43486, 43486)
    ∷ (43487, 43487)
    ∷ (43612, 43615)
    ∷ (43742, 43742)
    ∷ (43743, 43743)
    ∷ (43760, 43760)
    ∷ (43761, 43761)
    ∷ (44011, 44011)
    ∷ (64830, 64830)
    ∷ (64831, 64831)
    ∷ (65040, 65049)
    ∷ (65072, 65106)
    ∷ (65108, 65121)
    ∷ (65123, 65123)
    ∷ (65128, 65128)
    ∷ (65130, 65130)
    ∷ (65131, 65131)
    ∷ (65281, 65283)
    ∷ (65285, 65290)
    ∷ (65292, 65295)
    ∷ (65306, 65306)
    ∷ (65307, 65307)
    ∷ (65311, 65311)
    ∷ (65312, 65312)
    ∷ (65339, 65341)
    ∷ (65343, 65343)
    ∷ (65371, 65371)
    ∷ (65373, 65373)
    ∷ (65375, 65381)
    ∷ (65792, 65794)
    ∷ (66463, 66463)
    ∷ (66512, 66512)
    ∷ (66927, 66927)
    ∷ (67671, 67671)
    ∷ (67871, 67871)
    ∷ (67903, 67903)
    ∷ (68176, 68184)
    ∷ (68223, 68223)
    ∷ (68336, 68342)
    ∷ (68409, 68415)
    ∷ (68505, 68508)
    ∷ (69703, 69709)
    ∷ (69819, 69819)
    ∷ (69820, 69820)
    ∷ (69822, 69825)
    ∷ (69952, 69955)
    ∷ (70004, 70004)
    ∷ (70005, 70005)
    ∷ (70085, 70088)
    ∷ (70093, 70093)
    ∷ (70200, 70205)
    ∷ (70854, 70854)
    ∷ (71105, 71113)
    ∷ (71233, 71235)
    ∷ (74864, 74868)
    ∷ (92782, 92782)
    ∷ (92783, 92783)
    ∷ (92917, 92917)
    ∷ (92983, 92987)
    ∷ (92996, 92996)
    ∷ (113823, 113823)
    ∷ []

unfoldable pub in_ranges : List (ℕ × ℕ) → ℕ → Bool
in_ranges [] uc = false
in_ranges (r ∷ rs) uc = within r.0 r.1 uc || in_ranges rs uc

-- `cmark_utf8proc_is_punctuation`
unfoldable pub is_punctuation : ℕ → Bool
unfolding in_ranges
is_punctuation uc = ltb uc 128 && ispunct uc || in_ranges punctuation uc

-- The loop of `cmark_utf8proc_case_fold`: `fold c` is what the table appends for `c`. Each round takes a
-- byte at least, so the length is fuel enough.
unfoldable pub fold_loop : (ℕ → Bytes) → ℕ → Bytes → Bytes
fold_loop fold zero str = []
fold_loop fold (suc fuel) [] = []
fold_loop fold (suc fuel) (b ∷ s) = elim (iterate (b ∷ s)) [
  | none ↦ replacement ++ fold_loop fold fuel s
  | some (n, c) ↦ fold c ++ fold_loop fold fuel (drop n (b ∷ s))
]

-- What `cmark_utf8proc_case_fold` appends.
unfoldable pub case_fold : (ℕ → Bytes) → Bytes → Bytes
unfolding fold_loop
case_fold fold str = fold_loop fold (length str) str
