-- ===== src/Block/Feed/Tests.antt =====
-- The feeding of `a\r` and `\nb`, in two chunks.
use swift_cmark.Base.{Bytes, [], false, refl, true, ℕ, ◌++◌, ◌∷◌, ◌≡◌, ◌≢◌}
use swift_cmark.Block.Feed.{feed, feed_loop, feed_round, is_inside, skip_line_end, skip_newline}
use swift_cmark.Houdini.{span_length}
use swift_cmark.Block.Line.{is_line_end_char}
use swift_cmark.Block.Feed.Lines.{take_bytes, then_take, ends_inside, closing, fresh}
use swift_cmark.Block.Feed.Chunks.{feed_lem, feed-append}

abbrev first_chunk : Bytes
first_chunk = b'a' ∷ b'\r' ∷ []

abbrev second_chunk : Bytes
second_chunk = b'\n' ∷ b'b' ∷ []

cons≢nil : (c : ℕ) (s : Bytes) → c ∷ s ≢ []
cons≢nil c s e = cc

feed-append_example :
    feed false true (fresh []) (first_chunk ++ second_chunk)
    ≡ then_take (feed false false (fresh []) first_chunk) (λ q. feed false true q second_chunk)
feed-append_example =
    feed-append false true (fresh []) first_chunk second_chunk (cons≢nil b'a' (b'\r' ∷ []))
      (cons≢nil b'\n' (b'b' ∷ []))

feed_lem_example :
    feed false true (fresh []) first_chunk
    ≡ closing false true (ends_inside false first_chunk) (take_bytes (fresh []) first_chunk)
feed_lem_example = feed_lem false true (fresh []) first_chunk (cons≢nil b'a' (b'\r' ∷ []))

-- One line `a`, one line `b`.
two_lines :
    feed false true (fresh []) (first_chunk ++ second_chunk)
    ≡ ((b'a' ∷ [], true) ∷ (b'b' ∷ [], true) ∷ [], fresh [])
unfolding feed feed_loop feed_round is_inside skip_line_end skip_newline span_length
    is_line_end_char
two_lines = refl

-- After a chunk that ends with a carriage return, an empty chunk makes the newline a line of its own.
empty_chunk :
    then_take
      (feed false false (fresh []) first_chunk)
      (λ q. then_take (feed false false q []) (λ r. feed false false r second_chunk))
    ≡ ((b'a' ∷ [], true) ∷ ([], true) ∷ [], fresh (b'b' ∷ []))
unfolding feed feed_loop feed_round is_inside skip_line_end skip_newline span_length
    is_line_end_char
empty_chunk = refl
