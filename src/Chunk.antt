-- ===== src/Chunk.antt =====
-- src/include/chunk.h: slices of text, as the bytes that they show.
use swift_cmark.Base.{Bytes, drop, length, take}
use swift_cmark.Buffer.{rtrim_size, leading_spaces}

-- `cmark_chunk_ltrim`
unfoldable pub chunk_ltrim : Bytes → Bytes
chunk_ltrim s = drop (leading_spaces s) s

-- `cmark_chunk_rtrim`
unfoldable pub chunk_rtrim : Bytes → Bytes
chunk_rtrim s = take (rtrim_size s (length s)) s

-- `cmark_chunk_trim`
unfoldable pub chunk_trim : Bytes → Bytes
chunk_trim s = chunk_rtrim (chunk_ltrim s)
