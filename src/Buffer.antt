-- ===== src/Buffer.antt =====
-- src/buffer.c: growable byte buffers. Lengths and offsets are natural numbers, so a negative
-- argument, which the functions treat like 0, is outside the model.
pub mod Block
pub mod Append
pub mod InPlace
pub mod Search
mod Tests
use swift_cmark.Ctype.{isspace, ispunct}
use swift_cmark.Base.{
  Bool, Bytes, Option, [], at, drop, false, if◌then◌else◌, leb, length, ltb, min, none, not, set,
  some, suc, take, zero, ℕ, ◌%◌, ◌&&◌, ◌*◌, ◌+◌, ◌-◌, ◌/◌, ◌==◌, ◌>>=◌, ◌^◌, ◌∷◌, ◌≡◌, ◌≤◌,
}

-- What the buffers ask of `cmark_mem`, the allocator that the caller supplies: a block of the size
-- asked for that begins with the old contents. The rest of the block is not specified.
pub record Mem : Type 0 where
  pub realloc : Bytes → ℕ → Bytes
  pub length-realloc : (p : Bytes) (n : ℕ) → length (realloc p n) ≡ n
  pub take-realloc : (p : Bytes) (n : ℕ) → length p ≤ n → take (length p) (realloc p n) ≡ p

-- `cmark_strbuf`: `ptr` is the block pointed to, `cmark_strbuf__initbuf` while `asize` is 0.
pub record Strbuf : Type 0 where
  pub ptr : Bytes
  pub asize : ℕ
  pub size : ℕ

abbrev pub initbuf : Bytes
initbuf = 0 ∷ []

-- INT32_MAX / 2
abbrev pub max_size : ℕ
max_size = (2 ^ 31 - 1) / 2

-- The new size that `cmark_strbuf_grow` asks for: half as much again, rounded up to 8 bytes.
pub oversize : ℕ → ℕ
oversize target = (target + target / 2 + 1 + 7) / 8 * 8

-- `memmove` to offset `i` of a block.
unfoldable pub blit : Bytes → ℕ → Bytes → Bytes
blit [] i d = []
blit (x ∷ xs) (suc i) d = x ∷ blit xs i d
blit (x ∷ xs) zero [] = x ∷ xs
blit (x ∷ xs) zero (c ∷ d) = c ∷ blit xs zero d

module _ (m : Mem) where
  -- `none` is a failed assertion or `abort()`.
  unfoldable pub grow : Strbuf → ℕ → Option Strbuf
  unfolding oversize
  grow b target =
      if not (ltb 0 target)
      then none
      else if ltb target b.asize
      then some b
      else if ltb max_size target
      then none
      else some (record {
        ptr = m.realloc (if b.asize == 0 then [] else b.ptr) (oversize target);
        asize = oversize target;
        size = b.size;
      })

  -- `S_strbuf_grow_by`
  abbrev grow_by : Strbuf → ℕ → Option Strbuf
  grow_by b add = grow b (b.size + add)

abbrev pub empty : Strbuf
empty = record { ptr = initbuf; asize = 0; size = 0 }

unfoldable pub contents : Strbuf → Bytes
contents b = take b.size b.ptr

-- Cuts the buffer to `len` bytes and writes the NUL behind them.
abbrev pub resize : Strbuf → ℕ → Strbuf
resize b len = record b { ptr = set b.ptr len 0; size = len }

-- The byte and the NUL that `cmark_strbuf_putc` writes.
abbrev pub write_byte : Strbuf → ℕ → Strbuf
write_byte b c = resize (record b { ptr = set b.ptr b.size (c % 256) }) (b.size + 1)

-- `memmove` to offset `i`, and the new size with its NUL.
abbrev pub write_bytes : Strbuf → ℕ → Bytes → Strbuf
write_bytes b i d = resize (record b { ptr = blit b.ptr i d }) (i + length d)

pub clear : Strbuf → Strbuf
clear b = record b { ptr = if ltb 0 b.asize then set b.ptr 0 0 else b.ptr; size = 0 }

module _ (m : Mem) where
  pub init : ℕ → Option Strbuf
  init initial_size = if ltb 0 initial_size then grow m empty initial_size else some empty

  pub putc : Strbuf → ℕ → Option Strbuf
  putc b c = do b' ← grow m b (b.size + 1); some (write_byte b' c)

  pub put : Strbuf → Bytes → Option Strbuf
  unfolding blit
  put b [] = some b
  put b (c ∷ d) = do b' ← grow m b (b.size + length (c ∷ d)); some (write_bytes b' b'.size (c ∷ d))

  -- `cmark_strbuf_set`, on bytes that are not the buffer's own; `none` is a NULL argument.
  pub assign : Strbuf → Option Bytes → Option Strbuf
  unfolding blit clear
  assign b none = some (clear b)
  assign b (some []) = some (clear b)
  assign b (some (c ∷ d)) = do
    let len = length (c ∷ d)
    b' ← if leb b.asize len then grow m b len else some b
    some (write_bytes b' 0 (c ∷ d))

pub truncate : Strbuf → ℕ → Strbuf
truncate b len = if ltb len b.size then resize b len else b

-- `cmark_strbuf_drop`
pub drop_front : Strbuf → ℕ → Strbuf
unfolding blit
drop_front b zero = b
drop_front b (suc k) =
    let n = min (suc k) b.size in
    let size = b.size - n in
    resize (record b { ptr = blit b.ptr 0 (take size (drop n b.ptr)) }) size

-- The loop of `cmark_strbuf_rtrim`: the size with the spaces at the end taken off.
pub rtrim_size : Bytes → ℕ → ℕ
rtrim_size p zero = zero
rtrim_size p (suc n) = if isspace (at p n) then rtrim_size p n else suc n

pub rtrim : Strbuf → Strbuf
unfolding rtrim_size
rtrim b = if b.size == 0 then b else resize b (rtrim_size b.ptr b.size)

-- The loop of `cmark_strbuf_trim`: how many spaces stand at the front.
pub leading_spaces : Bytes → ℕ
leading_spaces [] = 0
leading_spaces (c ∷ s) = let rest = leading_spaces s in if isspace c then suc rest else 0

pub trim : Strbuf → Strbuf
unfolding rtrim drop_front leading_spaces contents
trim b = if b.size == 0 then b else rtrim (drop_front b (leading_spaces (contents b)))

-- The loop of `cmark_strbuf_normalize_whitespace`, with `n` bytes left to read at `r`. It writes
-- into the block that it reads, at `w`; the result is the block and the last `w`.
pub normalize_loop : ℕ → Bytes → ℕ → ℕ → Bool → Bytes × ℕ
normalize_loop zero p r w last = (p, w)
normalize_loop (suc n) p r w last =
    let skip = isspace (at p r) && last in
    normalize_loop n (if skip then p else set p w (if isspace (at p r) then b' ' else at p r))
      (r + 1) (if skip then w else w + 1) (isspace (at p r))

pub normalize_whitespace : Strbuf → Strbuf
unfolding normalize_loop truncate
normalize_whitespace b =
    let (p, w) = normalize_loop b.size b.ptr 0 0 false in truncate (record b { ptr = p }) w

-- The loop of `cmark_strbuf_unescape`. A backslash is skipped in front of ASCII punctuation; for the
-- last byte, the byte looked at is the NUL behind the buffer.
pub unescape_loop : ℕ → Bytes → ℕ → ℕ → ℕ → Bytes × ℕ
unescape_loop zero p size r w = (p, w)
unescape_loop (suc fuel) p size r w =
    let escaped = at p r == b'\\' && ispunct (at p (r + 1)) in
    let r' = if escaped then r + 1 else r in
    let rest = unescape_loop fuel (set p w (at p r')) size (r' + 1) (w + 1) in
    if ltb r size then rest else (p, w)

pub unescape : Strbuf → Strbuf
unfolding unescape_loop truncate
unescape b = let (p, w) = unescape_loop b.size b.ptr b.size 0 0 in truncate (record b { ptr = p }) w
