-- ===== src/Map/Normal.antt =====
-- `normalize_map_label` without the buffer.
use swift_cmark.Base.{
  Bytes, [], ap, arith, at, false, length, length-append, refl, suc, sym, take, take-nil, zero, ℕ,
  ◌++◌, ◌∙◌, ◌∷◌, ◌≡◌,
}
use swift_cmark.Map.{holding, nonempty, normalize_map_label}
use swift_cmark.Buffer.{Strbuf, contents}
use swift_cmark.Buffer.Search.{c_string}
use swift_cmark.Buffer.Append.{Holds}
use swift_cmark.Buffer.InPlace.{trim_start, trim_end, trim_lem}
use swift_cmark.Buffer.InPlace.Normalize.{collapse, normalize_whitespace-collapse}
use swift_cmark.Utf8.Classes.{case_fold, fold_loop}

take-length : (s t : Bytes) → take (length s) (s ++ t) ≡ s
take-length [] t = refl
take-length (c ∷ s) t = ap (◌∷◌ c) (take-length s t)

at-length : (s t : Bytes) (c : ℕ) → at (s ++ c ∷ t) (length s) ≡ c
at-length [] t c = refl
at-length (d ∷ s) t c = at-length s t c

holding-Holds : (s : Bytes) → Holds (holding s) s
unfolding contents
holding-Holds s = record {
  contents_are = take-length s (0 ∷ []);
  valid = record {
    fits = omega (arith, length-append s (0 ∷ []));
    sized = ground (arith, length-append s (0 ∷ []));
  };
  terminated = at-length s [] 0;
}

c_string-take : (p : Bytes) (n : ℕ) → at p n ≡ 0 → c_string p ≡ c_string (take n p)
unfolding c_string
c_string-take [] n h = ap c_string (sym (take-nil n))
c_string-take (c ∷ p) zero h = ground (arith, h)
c_string-take (c ∷ p) (suc n) h = ground (arith, c_string-take p n h)

Holds-c_string : {b : Strbuf} {s : Bytes} → Holds b s → c_string b.ptr ≡ c_string s
unfolding contents
Holds-c_string {b} holds =
    c_string-take b.ptr b.size holds.terminated ∙ ap c_string holds.contents_are

-- Normalizing a label, through the buffer, gives the case fold of it without the white space at
-- both ends, each run of white space inside made one space, up to a NUL; NULL if that is empty.
pub normalize_map_label-collapse :
    (fold : ℕ → Bytes) (s : Bytes)
    → normalize_map_label fold s
      ≡ nonempty (c_string (collapse false (trim_end (trim_start (case_fold fold s)))))
unfolding normalize_map_label case_fold fold_loop trim_start trim_end collapse c_string
normalize_map_label-collapse fold [] = refl
normalize_map_label-collapse fold (c ∷ s) = ap nonempty (
    Holds-c_string
      (normalize_whitespace-collapse (trim_lem (holding-Holds (case_fold fold (c ∷ s))))))
