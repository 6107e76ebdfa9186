-- ===== src/Shell/Parse/Text.antt =====
-- lab1/read-command.c: characters, words and comments of a script.
use cs111fall.Prelude.{
  ℕ, zero, suc, ◌+◌, Bool, true, false, ◌&&◌, ◌||◌, Option, none, some, List, [], ◌∷◌, length, ltb,
  leb, ◌==◌, if◌then◌else◌,
}

-- The script as the bytes from its first one on, those after its end included.
abbrev pub Text : Type 0
Text = ℕ → ℕ

-- The bytes of a string.
abbrev pub Word : Type 0
Word = List ℕ

-- `EOF` as a `char`.
abbrev pub eof : ℕ
eof = 255

abbrev pub newline : ℕ
newline = 10

-- Where the parser is: `*index` and `NUM_LINE`.
pub record Place : Type 0 where
  pub index : ℕ
  pub line : ℕ

-- `get_next_word` writes the zero byte after a word behind the bytes that it asked `malloc` for. That byte is in
-- the same chunk for words below this length; the least chunk of the C library on a machine of 64 bits has it.
abbrev pub least_chunk : ℕ
least_chunk = 24

-- What a function of the parser does: it returns, it exits with the line of its message, it uses a null
-- pointer as a string, it writes behind a chunk of memory, after which anything may happen, or the fuel runs
-- out.
pub data Parse (A : Type 0) : Type 0 where
  parsed : A → Place → Parse A
  syntax_error : (line : ℕ) → Parse A
  null_word : Parse A
  overrun : Parse A
  no_fuel : Parse A

abbrev pub and_parse : {A B : Type 0} → Parse A → (A → Place → Parse B) → Parse B
and_parse (parsed a p) k = k a p
and_parse (syntax_error l) k = syntax_error l
and_parse null_word k = null_word
and_parse overrun k = overrun
and_parse no_fuel k = no_fuel

abbrev pub advance : Place → Place
advance p = record p { index = suc p.index }

abbrev pub next_line : Place → Place
next_line p = record p { line = suc p.line }

abbrev between : ℕ → ℕ → ℕ → Bool
between a b c = leb a c && leb c b

abbrev pub is_one_of : Word → ℕ → Bool
is_one_of [] c = false
is_one_of (a ∷ rest) c = (c == a) || is_one_of rest c

-- Digits, letters and %+,-.!/:@^_*.
unfoldable pub is_valid_char : ℕ → Bool
is_valid_char c =
    between 48 57 c
    || (between 97 122 c
        || (between 65 90 c
            || is_one_of (37 ∷ 43 ∷ 44 ∷ 45 ∷ 46 ∷ 33 ∷ 47 ∷ 58 ∷ 64 ∷ 94 ∷ 95 ∷ 42 ∷ []) c))

-- ;|()<>
unfoldable pub is_special_char : ℕ → Bool
is_special_char c = is_one_of (59 ∷ 124 ∷ 40 ∷ 41 ∷ 60 ∷ 62 ∷ []) c

abbrev pub is_space : ℕ → Bool
is_space c = is_one_of (32 ∷ 9 ∷ []) c

abbrev pub is_blank : ℕ → Bool
is_blank c = is_one_of (32 ∷ 9 ∷ 10 ∷ []) c

-- A comment or a backslash, which is read like a comment.
abbrev pub starts_comment : ℕ → Bool
starts_comment c = is_one_of (35 ∷ 92 ∷ []) c

abbrev pub same_word : Word → Word → Bool
same_word [] [] = true
same_word [] (b ∷ w) = false
same_word (a ∷ v) [] = false
same_word (a ∷ v) (b ∷ w) = (a == b) && same_word v w

module _ (start : Text) (size : ℕ) where
  -- To the end of the line, which counts, or to an `EOF` byte.
  unfoldable pub skip_line : ℕ → Place → Parse Unit
  skip_line zero p = no_fuel
  skip_line (suc fuel) p =
      let c = start p.index in
      let rest = skip_line fuel (advance p) in
      if c == eof then parsed tt p else if c == newline then parsed tt (next_line p) else rest

  -- What `get_next_word` skips; the line that a comment ends counts twice.
  unfoldable pub skip_blank : ℕ → Place → Parse Unit
  skip_blank zero p = no_fuel
  skip_blank (suc fuel) p =
      let c = start p.index in
      let at_end = if starts_comment c then skip_line fuel p else parsed tt p in
      let rest =
        and_parse at_end
          λ u q. skip_blank fuel (advance (if start q.index == newline then next_line q else q)) in
      if (is_blank c || starts_comment c) && ltb p.index size then rest else parsed tt p

  unfoldable pub valid_from : ℕ → ℕ → Option Word
  valid_from zero i = none
  valid_from (suc fuel) i = step (valid_from fuel (suc i))
    where
      add : Option Word → Option Word
      add none = none
      add (some w) = some (start i ∷ w)

      step : Option Word → Option Word
      step rest = if is_valid_char (start i) then add rest else some []

  -- The word at a place, `none` for a null pointer; a word that may fill its chunk is an overrun.
  unfoldable pub word_at : ℕ → Place → Parse (Option Word)
  word_at fuel p = go (valid_from fuel p.index)
    where
      go : Option Word → Parse (Option Word)
      go none = no_fuel
      go (some []) = parsed none p
      go (some (c ∷ w)) =
          if ltb (length (c ∷ w)) least_chunk
          then parsed (some (c ∷ w)) (record p { index = p.index + length (c ∷ w) })
          else overrun

  unfoldable pub get_next_word : ℕ → Place → Parse (Option Word)
  get_next_word fuel p = and_parse (skip_blank fuel p) λ u q. word_at fuel q
