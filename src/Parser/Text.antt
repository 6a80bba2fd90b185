-- ===== src/Parser/Text.antt =====
-- src/parser/utils.c and the loops of src/parser/parser.c over the characters of the query.
use squel.Common.{
  Bool, Bytes, Run, [], defined, false, fault, if◌then◌else◌, leb, length, ltb, not, ok,
  out_of_bounds, require, ℕ, ◌&&◌, ◌++◌, ◌+◌, ◌-◌, ◌==◌, ◌>>=◌, ◌>>◌, ◌||◌, ◌∷◌,
}

-- A `char` is signed, so the bytes from 128 on are below zero.
abbrev pub is_numeric : ℕ → Bool
is_numeric chr = leb 48 chr && leb chr 57

abbrev pub is_letter : ℕ → Bool
is_letter chr = leb 65 chr && leb chr 90 || leb 97 chr && leb chr 122

abbrev pub is_alpha_numeric : ℕ → Bool
is_alpha_numeric chr = is_letter chr || is_numeric chr

abbrev pub is_white_space : ℕ → Bool
is_white_space chr = leb chr 32 || leb 128 chr

-- `isAlphaNumeric(nextChar) || nextChar == '_'`
abbrev pub is_name : ℕ → Bool
is_name chr = is_alpha_numeric chr || chr == 95

-- Not a closing quote.
abbrev pub is_quoted : ℕ → Bool
is_quoted chr = not (chr == 39)

-- `MAXEXPRSIZE` and `MAXQUERYSIZE`.
abbrev pub max_expr_size : ℕ
max_expr_size = 100

abbrev pub max_query_size : ℕ
max_query_size = 1000

-- Where the parser stands in `rawSql`: `next_char` is the character before `cursor`, and `ahead` are
-- those from `cursor` to the end of the array.
pub record Reader : Type 0 where
  pub cursor : ℕ
  pub next_char : ℕ
  pub ahead : Bytes

-- `getNextChar`
unfoldable pub advance : Reader → Run Reader
advance r = elim r.ahead [
  | [] ↦ fault out_of_bounds
  | c ∷ ahead ↦ ok (record { cursor = r.cursor + 1; next_char = c; ahead = ahead })
]

-- The loop of `skipWhite`.
unfoldable pub white_loop : ℕ → ℕ → ℕ → Bytes → Run Reader
white_loop qsize cursor c [] =
    if is_white_space c && ltb cursor qsize
    then fault out_of_bounds
    else ok (record { cursor = cursor; next_char = c; ahead = [] })
white_loop qsize cursor c (d ∷ ahead) =
    let rest = white_loop qsize (cursor + 1) d ahead in
    if is_white_space c && ltb cursor qsize
    then rest
    else ok (record { cursor = cursor; next_char = c; ahead = d ∷ ahead })

-- `buff[i++] = nextChar`
unfoldable pub push : Bytes → ℕ → Run Bytes
push buff c = do defined (ltb (length buff) max_expr_size) out_of_bounds; ok (buff ++ c ∷ [])

-- The loops of `filename`, `string` and `number`, which copy to `buff` as long as `goes_on`.
unfoldable pub copy_loop : (ℕ → Bool) → ℕ → Bytes → ℕ → ℕ → Bytes → Run (Bytes × Reader)
copy_loop goes_on qsize buff cursor c [] =
    if goes_on c
    then fault out_of_bounds
    else ok (buff, record { cursor = cursor; next_char = c; ahead = [] })
copy_loop goes_on qsize buff cursor c (d ∷ ahead) =
    let rest = copy_loop goes_on qsize (buff ++ c ∷ []) (cursor + 1) d ahead in
    if goes_on c
    then (do buff' ← push buff c; require (leb (length buff') qsize); rest)
    else ok (buff, record { cursor = cursor; next_char = c; ahead = d ∷ ahead })

-- The loop of `ident`. After a dot, what stands before it is the name of a table: `tblrefCutOff`.
unfoldable pub ident_loop : ℕ → Bytes → ℕ → ℕ → ℕ → Bytes → Run ((Bytes × ℕ) × Reader)
ident_loop qsize buff cut_off cursor c [] =
    if is_name c
    then fault out_of_bounds
    else ok ((buff, cut_off), record { cursor = cursor; next_char = c; ahead = [] })
ident_loop qsize buff cut_off cursor c (d ∷ []) =
    let rest = ident_loop qsize (buff ++ c ∷ []) cut_off (cursor + 1) d [] in
    if is_name c
    then (do
      buff' ← push buff c
      if d == 46 then fault out_of_bounds else (do require (leb (length buff') qsize); rest))
    else ok ((buff, cut_off), record { cursor = cursor; next_char = c; ahead = d ∷ [] })
ident_loop qsize buff cut_off cursor c (d ∷ e ∷ ahead) =
    let dotted = ident_loop qsize (buff ++ c ∷ []) (length buff + 1) (cursor + 2) e ahead in
    let rest = ident_loop qsize (buff ++ c ∷ []) cut_off (cursor + 1) d (e ∷ ahead) in
    if is_name c
    then (do
      buff' ← push buff c
      require (leb (length buff') qsize)
      if d == 46 then dotted else rest)
    else ok ((buff, cut_off), record { cursor = cursor; next_char = c; ahead = d ∷ e ∷ ahead })

-- The loop of `addAlias`: at `i`, over what `alias` held.
unfoldable pub alias_loop : Bytes → ℕ → ℕ → Bytes → Run (Bytes × Reader)
alias_loop alias cursor c [] =
    if is_letter c
    then fault out_of_bounds
    else ok (alias, record { cursor = cursor; next_char = c; ahead = [] })
alias_loop alias cursor c (d ∷ ahead) =
    let rest = alias_loop (alias ++ c ∷ []) (cursor + 1) d ahead in
    if is_letter c
    then (do defined (ltb (length alias) max_expr_size) out_of_bounds; rest)
    else ok (alias, record { cursor = cursor; next_char = c; ahead = d ∷ ahead })

-- The loop of `peekWordMatches` gives `i`. It compares the zero behind the word too, and a match of
-- that one makes it read behind the word.
unfoldable pub peek_loop : Bytes → Bytes → Run ℕ
peek_loop w [] = fault out_of_bounds
peek_loop [] (c ∷ text) = if c == 0 then fault out_of_bounds else ok 1
peek_loop (x ∷ w) (c ∷ text) =
    let rest = peek_loop w text in if x == c then (do i ← rest; ok (i + 1)) else ok 1

-- `peekWordMatches`; `start` is what `cursor - 1 + i` comes to.
unfoldable pub peek_word : ℕ → Bytes → Reader → Run Bool
unfolding peek_loop
peek_word qsize w r = do
  i ← peek_loop w (r.next_char ∷ r.ahead)
  ok (if ltb qsize (r.cursor - 1 + i) then false else leb (length w) i)

-- The loop of `peekNextNonAlphanumeric`, from the character at `start` on.
unfoldable pub non_alphanumeric : ℕ → ℕ → Bytes → Run ℕ
non_alphanumeric qsize start [] = fault out_of_bounds
non_alphanumeric qsize start (c ∷ text) =
    let rest = non_alphanumeric qsize (start + 1) text in
    if is_alpha_numeric c && ltb (start + 1) qsize
    then rest
    else ok (if start + 1 == qsize then 0 else c)

-- The loop of `expectWord`: the word against `nextChar`, which moves on at a match.
unfoldable pub word_loop : Bytes → ℕ → ℕ → Bytes → Run (ℕ × Reader)
word_loop [] cursor c ahead =
    if c == 0
    then fault out_of_bounds
    else ok (1, record { cursor = cursor; next_char = c; ahead = ahead })
word_loop (x ∷ w) cursor c [] =
    if x == c
    then fault out_of_bounds
    else ok (1, record { cursor = cursor; next_char = c; ahead = [] })
word_loop (x ∷ w) cursor c (d ∷ ahead) =
    let rest = word_loop w (cursor + 1) d ahead in
    if x == c
    then (do (i, r) ← rest; ok (i + 1, r))
    else ok (1, record { cursor = cursor; next_char = c; ahead = d ∷ ahead })

-- `expectWord`
unfoldable pub expect_text : Bytes → Reader → Run Reader
unfolding word_loop
expect_text w r = do
  (i, r') ← word_loop w r.cursor r.next_char r.ahead
  require (leb (length w) i)
  ok r'
