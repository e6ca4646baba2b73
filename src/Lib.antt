-- ===== src/Lib.antt =====
-- swift-cmark, the Markdown parser and renderer in C: its byte buffers, UTF-8 code, escaping and
-- unescaping, the parts of block parsing that cut the input into lines and read one line, code spans
-- and emphasis, the tree of nodes, the maps of references, and the renderer that breaks lines.
--
-- How the parts interact. A document is fed to src/blocks.c in chunks, which cuts it into lines,
-- sanitizes each (src/utf8.c), finds positions and markers in it, and builds a tree of nodes
-- (src/node.c). Link references and footnotes go into maps (src/map.c, src/references.c,
-- src/footnotes.c), in which inline parsing (src/inlines.c) looks them up. Strings on the way are
-- byte buffers (src/buffer.c), entities in them are decoded (src/houdini_html_u.c), and a renderer
-- walks the tree (src/iterator.c), breaks lines (src/render.c, src/commonmark.c, src/man.c,
-- src/latex.c) and escapes what it writes (src/houdini_html_e.c, src/houdini_href_e.c). All of these
-- classify bytes by src/cmark_ctype.c.
--
-- The modules.
--   Base        names shared by all modules: the libraries', Boolean tests and case splits
--               (Base.Tests), lists measured by native numbers (Base.Lists), `int` results (Base.Words)
--   Ctype       src/cmark_ctype.c, the table and the predicates under their names less `cmark_`
--   Strings     strcmp and strncmp of the C library
--   Buffer      src/buffer.c: `Strbuf` is cmark_strbuf, whose block is a list of bytes; an operation is
--               named like its function less `cmark_strbuf_` (cmark_strbuf_set is `assign`,
--               cmark_strbuf_drop is `drop_front`), and `none` is abort() or a failed
--               assertion. The allocator is a record of operations and laws, `Mem`: what a block
--               holds beyond the old contents is not said.
--               Buffer.Block has the lemmas on blocks, Buffer.Append growth and what appends,
--               Buffer.InPlace what edits in place, Buffer.Search the searches.
--   Chunk       src/include/chunk.h: trimming of slices, which are the bytes they show
--   Utf8        src/utf8.c: `valid`, `iterate`, `encode_char`, `check` and the classes of code points
--               (Utf8.Classes). A negative result is `negsuc`, or `none` where only its sign is read.
--   Houdini     the three files src/houdini_*.c. Text that a function appends is its result. The loop
--               that both escapers share is in Houdini, the rest in Houdini.Html, Houdini.Href and
--               Houdini.Unescape. Names looked up in the entity table are taken to be without NUL,
--               since there the source may read behind an entity's end.
--   Block       src/blocks.c: Block.Line has S_advance_offset and S_find_first_nonspace on the fields of
--               cmark_parser that they touch, Block.Marker has parse_list_marker and lists_match,
--               Block.Rule has S_scan_thematic_break, Block.Text has chop_trailing_hashtags and
--               remove_trailing_blank_lines, Block.Feed has S_parser_feed: `Pending` is what the
--               parser keeps between chunks, the calls of S_process_line are a list.
--   Node        src/node.c: a store gives the node at each address. Node.Types has what may contain
--               what, Node.Fields the getters and setters, Node.Links the links between nodes,
--               Node.Iterator the walk of src/iterator.c; Node.Iterator.Walk has trees as data.
--   Map         src/map.c: `CmarkMap` is cmark_map, with entries of any body; Map.Reference has the bodies
--               and creations of src/references.c and src/footnotes.c and the cleaning of URLs and
--               titles of src/inlines.c. Map.FindsOldest has the search that a lookup stands for.
--   Inline      src/inlines.c: Inline.Backticks has code spans on the fields of `subject` that they touch,
--               Inline.Delims scan_delims, Inline.Emphasis process_emphasis with S_insert_emph and
--               remove_delimiter, on the stack as two lists around the closer; what happens to the
--               inline nodes is a list of changes. Inline.Smart has dashes and ellipses.
--   Render      src/render.c: `Renderer` is cmark_renderer, `out` is S_out
--   Commonmark  src/commonmark.c: `outc`, the runs of backticks, and the code span of S_render_node,
--               which Commonmark.Code joins to the reading of Inline.Backticks
--   Man, Latex  src/man.c and src/latex.c: S_outc and outc
--   Each part has its tests and concrete instances of its theorems in a module Tests.
--
-- Numbers. Sizes, offsets and bytes are natural numbers; where the source casts or masks, the
-- remainder is written out. Negative lengths and offsets, which the functions take for 0 or refuse,
-- are left out except in setters, whose refusal of them is modelled. The ages of map entries are
-- `int`s for fewer than 2^31 entries, so that a difference of two does not overflow; `size_t` has 64
-- bits. `>> k` and `& (2 ^ k - 1)` are division by and remainder modulo a power of two.
--
-- Fuel. Loops over a text carry its length, or the length left, as fuel, and each round takes at
-- least one byte; the binary search carries the size of the table; the loop over ancestors carries a
-- bound that its theorem asks to exceed the number of ancestors; the loop of process_emphasis
-- carries the number of delimiters and of their characters, of which each round passes or uses one.
-- Where fuel ran out the result would be a shorter text or `none`, which the theorems on whole
-- results exclude.
--
-- Parameters. The tables of src/entities.inc (names, bytes, count) and of src/case_fold_switch.inc,
-- the allocator, the extensions' can_contain_func, escaping and skipped characters, the outc of an
-- output format, and `qsort` and `bsearch`, of which Map.Lookup states what the C standard says. Of
-- the entity table the theorems ask that it is sorted by strcmp, or that it knows the four entities
-- that the escaper writes.
--
-- Not modelled: the block parser above one line, parser->total_size, brackets, links, line breaks
-- and backslashes of src/inlines.c, delimiters that an extension handles, freeing and unlinking of
-- maps, the renderers but for src/render.c and what is said of src/commonmark.c, src/man.c and
-- src/latex.c, the arena, the registry and the extensions under extensions/; the scanners are
-- generated. Of src/node.c, allocation and freeing, cmark_node_set_type, positions and user data;
-- the members of the union in a node stand side by side, which cannot be told apart as long as a
-- node's type stays.
mod Base
pub mod Ctype
pub mod Strings
pub mod Buffer
pub mod Chunk
pub mod Utf8
pub mod Houdini
pub mod Block
pub mod Node
pub mod Map
pub mod Inline
pub mod Render
pub mod Commonmark
pub mod Man
pub mod Latex
