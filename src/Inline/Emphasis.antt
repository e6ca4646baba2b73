-- ===== src/Inline/Emphasis.antt =====
-- The stack of delimiters: `process_emphasis` and what `S_insert_emph` does to it. Inline nodes are
-- known by a number; what is done to them is reported as a list of changes.
pub mod Rounds
pub mod Opener
pub mod Sorted
pub mod Good
pub mod Round
pub mod Loop
pub mod Ends
mod Tests
use swift_cmark.Base.{
  Bool, List, Option, [], false, if◌then◌else◌, leb, length, ltb, none, not, some, suc, true, zero,
  ℕ, ◌%◌, ◌&&◌, ◌++◌, ◌+◌, ◌-◌, ◌==◌, ◌>>=◌, ◌||◌, ◌∷◌,
}

-- `delimiter`: `inl_text` is the text node, `chars` the length of its literal.
pub record Delimiter : Type 0 where
  pub inl_text : ℕ
  pub position : ℕ
  pub length : ℕ
  pub delim_char : ℕ
  pub can_open : Bool
  pub can_close : Bool
  pub chars : ℕ

-- What happens to the inline nodes: those between two text nodes go into a new emphasis, or strong
-- emphasis with `use` 2, behind the first, and both texts lose `use` characters, a text left without
-- any being freed; or quotes turn: a closing one, with its opening one if there is one.
pub data Change : Type 0 where
  emph : Delimiter → Delimiter → ℕ → Change
  quote : Option Delimiter → Delimiter → Change

-- Lower bounds for openers by length modulo 3 and character.
abbrev pub Bottoms : Type 0
Bottoms = ℕ → ℕ → ℕ

abbrev pub is_emph_char : ℕ → Bool
is_emph_char c = c == b'*' || c == b'_'

abbrev pub is_quote_char : ℕ → Bool
is_quote_char c = c == 39 || c == b'"'

abbrev pub init_bottoms : ℕ → Bottoms
init_bottoms stack_bottom i c = if is_emph_char c || is_quote_char c then stack_bottom else 0

abbrev pub set_bottom : ℕ → ℕ → ℕ → Bottoms → Bottoms
set_bottom i c p bottoms j d = if j == i && d == c then p else bottoms j d

-- The test on an opener; delimiters of which one is both opener and closer must not add up to 3.
unfoldable pub is_match : Delimiter → Delimiter → Bool
is_match closer opener =
    opener.can_open
    && opener.delim_char == closer.delim_char
    && (not (closer.can_open || opener.can_close)
        || closer.length % 3 == 0
        || not ((opener.length + closer.length) % 3 == 0))

-- What a search finds: the delimiters passed over, nearest first, the opener, and those below it.
abbrev pub Found : Type 0
Found = List Delimiter × Delimiter × List Delimiter

-- The search backwards from a closer through `closer->previous` and on, down to `low`.
unfoldable pub find_opener : ℕ → Delimiter → List Delimiter → Option Found
find_opener low closer [] = none
find_opener low closer (o ∷ below) =
    let rest : Option Found = elim (find_opener low closer below) [
      | none ↦ none
      | some (between, opener, ds) ↦ some (o ∷ between, opener, ds)
    ] in
    if ltb o.position low then none else if is_match closer o then some ([], o, below) else rest

-- `use_delims` of `S_insert_emph`
abbrev pub use_delims : Delimiter → Delimiter → ℕ
use_delims opener closer = if leb 2 closer.chars && leb 2 opener.chars then 2 else 1

abbrev pub use_chars : ℕ → Delimiter → Delimiter
use_chars n d = record d { chars = d.chars - n }

-- A delimiter stays on the stack while its text has characters.
abbrev pub keep : Delimiter → List Delimiter → List Delimiter
keep d ds = if d.chars == 0 then ds else d ∷ ds

abbrev pub max : ℕ → ℕ → ℕ
max a b = if ltb a b then b else a

-- The delimiters before `closer`, nearest first, and those from it on.
pub record Stack : Type 0 where
  pub before : List Delimiter
  pub from : List Delimiter
  pub bottoms : Bottoms

-- `S_insert_emph`
abbrev pub insert_emph : Stack → Found → Delimiter → List Delimiter → List Change × Stack
insert_emph s (between, opener, below) closer after =
    let n = use_delims opener closer in
    (
      emph opener closer n ∷ [],
      record s { before = keep (use_chars n opener) below; from = keep (use_chars n closer) after },
    )

-- A closer with an opener, and one without.
abbrev pub with_opener : Stack → Found → Delimiter → List Delimiter → List Change × Stack
with_opener s (between, opener, below) closer after =
    if is_emph_char closer.delim_char
    then insert_emph s (between, opener, below) closer after
    else (quote (some opener) closer ∷ [], record s { before = between ++ below; from = after })

abbrev pub without_opener : Stack → Delimiter → List Delimiter → List Change × Stack
without_opener s closer after = (
  (if is_emph_char closer.delim_char then [] else quote none closer ∷ []),
  record {
    before = if closer.can_open then closer ∷ s.before else s.before;
    from = after;
    bottoms = set_bottom (closer.length % 3) closer.delim_char closer.position s.bottoms;
  },
)

-- The tests of a round: whether the delimiter can close, whether its character is one of the four, and
-- the opener. `none` is another character, which only an extension pushes: the loop would not go on.
abbrev pub choose_round {ℓ} :
    {R : Type ℓ} → Bool → Bool → Option Found → R → (Found → R) → R → Option R
choose_round false known opener passed with_ without = some passed
choose_round true false opener passed with_ without = none
choose_round true true none passed with_ without = some without
choose_round true true (some found) passed with_ without = some (with_ found)

-- One round of the loop on `closer`, with the delimiters behind it.
unfoldable pub close_round : ℕ → Stack → Delimiter → List Delimiter → Option (List Change × Stack)
unfolding find_opener
close_round stack_bottom s closer after =
    let low = max stack_bottom (s.bottoms (closer.length % 3) closer.delim_char) in
    choose_round closer.can_close
      (is_emph_char closer.delim_char || is_quote_char closer.delim_char)
      (find_opener low closer s.before) ([], record s { before = closer ∷ s.before; from = after })
      (λ found. with_opener s found closer after) (without_opener s closer after)

-- The loop forward; `none` is a loop without end.
unfoldable pub close_loop : ℕ → ℕ → Stack → Option (List Change × List Delimiter)
unfolding close_round
close_loop zero stack_bottom s = none
close_loop (suc fuel) stack_bottom s = elim s.from [
  | [] ↦ some ([], s.before)
  | closer ∷ after ↦ close_round stack_bottom s closer after >>= λ r.
      close_loop fuel stack_bottom r.1 >>= λ t. some (r.0 ++ t.0, t.1)
]

-- The loop back from `last_delim`: the delimiters from the first relevant one on, and those before it.
unfoldable pub move_back : ℕ → List Delimiter → List Delimiter → List Delimiter × List Delimiter
move_back stack_bottom [] from = (from, [])
move_back stack_bottom (d ∷ ds) from =
    let rest = move_back stack_bottom ds (d ∷ from) in
    if leb stack_bottom d.position then rest else (from, d ∷ ds)

-- The last loop: what stays on the stack.
unfoldable pub remove_above : ℕ → List Delimiter → List Delimiter
remove_above stack_bottom [] = []
remove_above stack_bottom (d ∷ ds) =
    let rest = remove_above stack_bottom ds in if leb stack_bottom d.position then rest else d ∷ ds

-- Rounds that the loop can take: each passes a delimiter or uses a character of one.
abbrev pub work : List Delimiter → ℕ
work [] = 0
work (d ∷ ds) = suc (d.chars + work ds)

-- `process_emphasis` on the stack with `last_delim` at its head.
unfoldable pub process_emphasis : ℕ → List Delimiter → Option (List Change × List Delimiter)
unfolding close_loop move_back remove_above
process_emphasis stack_bottom delims =
    let (from, before) = move_back stack_bottom delims [] in
    close_loop (suc (work from)) stack_bottom
      (record { before = before; from = from; bottoms = init_bottoms stack_bottom })
    >>= λ r. some (r.0, remove_above stack_bottom r.1)
