-- ===== src/Latex/Tests.antt =====
-- Characters that mean something to LaTeX.
use swift_cmark.Base.{[], refl, some, ◌∷◌, ◌≡◌}
use swift_cmark.Render.{normal, url}
use swift_cmark.Latex.{escaped}

-- Two hyphens are kept apart.
hyphens : escaped normal b'-' b'-' ≡ some (b'-' ∷ b'{' ∷ b'}' ∷ [])
unfolding escaped
hyphens = refl

backslash_in_url : escaped url 92 0 ≡ some (b'/' ∷ [])
unfolding escaped
backslash_in_url = refl
