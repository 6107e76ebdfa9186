-- ===== src/Shell/Parse/Kind.antt =====
-- lab1/read-command.c: tokens, and which kind of command comes next.
use cs111fall.Prelude.{
  ℕ, zero, suc, ◌+◌, ◌-◌, Bool, true, false, ◌&&◌, ◌||◌, not, Option, none, some, List, [], ◌∷◌,
  ltb, leb, ◌==◌, if◌then◌else◌,
}
use cs111fall.Shell.Parse.Text.{
  Text, Word, Place, Parse, parsed, syntax_error, no_fuel, advance, next_line, eof, newline,
  is_one_of, is_valid_char, is_special_char, is_space, is_blank, same_word,
}

-- `enum command_type`.
pub data Kind : Type 0 where
  if_kind : Kind
  pipe_kind : Kind
  sequence_kind : Kind
  simple_kind : Kind
  subshell_kind : Kind
  until_kind : Kind
  while_kind : Kind

abbrev pub word_if : Word
word_if = 105 ∷ 102 ∷ []

abbrev pub word_then : Word
word_then = 116 ∷ 104 ∷ 101 ∷ 110 ∷ []

abbrev pub word_else : Word
word_else = 101 ∷ 108 ∷ 115 ∷ 101 ∷ []

abbrev pub word_fi : Word
word_fi = 102 ∷ 105 ∷ []

abbrev pub word_while : Word
word_while = 119 ∷ 104 ∷ 105 ∷ 108 ∷ 101 ∷ []

abbrev pub word_until : Word
word_until = 117 ∷ 110 ∷ 116 ∷ 105 ∷ 108 ∷ []

abbrev pub word_do : Word
word_do = 100 ∷ 111 ∷ []

abbrev pub word_done : Word
word_done = 100 ∷ 111 ∷ 110 ∷ 101 ∷ []

abbrev pub word_in : Word
word_in = 105 ∷ 110 ∷ []

abbrev pub word_esac : Word
word_esac = 101 ∷ 115 ∷ 97 ∷ 99 ∷ []

abbrev pub is_among : List Word → Word → Bool
is_among [] w = false
is_among (v ∷ rest) w = same_word w v || is_among rest w

abbrev pub keywords : List Word
keywords =
    word_if ∷ word_then ∷ word_else ∷ word_fi ∷ word_while ∷ word_until ∷ word_done ∷ word_do ∷ []

-- The words that cannot come first in a command.
abbrev pub misplaced : List Word
misplaced = word_do ∷ word_done ∷ word_else ∷ word_fi ∷ word_then ∷ []

-- The first byte of a string, which is 0 for the empty one.
abbrev pub head : Word → ℕ
head [] = 0
head (c ∷ w) = c

-- `strchr(word, c)`, as the rest of the word after the byte.
abbrev pub after_char : ℕ → Word → Option Word
after_char c [] = none
after_char c (a ∷ w) = if a == c then some w else after_char c w

abbrev pub has_char : ℕ → Word → Bool
has_char c w = is_one_of w c

-- A bar that no bar follows.
unfoldable pub has_pipe : Word → Bool
has_pipe w = go (after_char 124 w)
  where
    go : Option Word → Bool
    go none = false
    go (some rest) = not (head rest == 124)

module _ (start : Text) where
  -- `n` bytes from a place on.
  abbrev pub bytes_at : ℕ → ℕ → Word
  bytes_at zero i = []
  bytes_at (suc n) i = start i ∷ bytes_at n (suc i)

  -- The end of the spaces and tabs, within `n` bytes.
  abbrev pub past_spaces : ℕ → ℕ → ℕ
  past_spaces zero i = i
  past_spaces (suc n) i = let rest = past_spaces n (suc i) in if is_space (start i) then rest else i

  -- The end of the blanks, and of the other bytes, from a place on and within `n` bytes.
  unfoldable pub past_blanks : ℕ → ℕ → ℕ
  past_blanks zero i = i
  past_blanks (suc n) i = let rest = past_blanks n (suc i) in if is_blank (start i) then rest else i

  unfoldable pub token_length : ℕ → ℕ → ℕ
  token_length zero i = 0
  token_length (suc n) i =
      let rest = token_length n (suc i) in
      if is_blank (start i) || (start i == eof) then 0 else suc rest

  -- The next token, without moving on; a null pointer at the end of the text.
  unfoldable pub read_next_token : (size : ℕ) → ℕ → Option Word
  read_next_token size i =
      let tmp = past_blanks (size - i) i in
      if leb size i then none else some (bytes_at (token_length (size - tmp) tmp) tmp)

  -- The next token on the line, and the index after it. The byte after the text ends the blanks.
  unfoldable pub read_next_token2 : (size : ℕ) → ℕ → Option Word × ℕ
  read_next_token2 size i =
      let tmp = past_spaces (suc (size - i)) i in
      let count = token_length (size - tmp) tmp in
      if (start tmp == newline) || (count == 0)
      then (none, tmp)
      else (some (bytes_at count tmp), tmp + count)

  -- Whether a token of the line passes a test, up to a word that ends the search; each token takes a byte.
  unfoldable pub some_token : ℕ → (size : ℕ) → List Word → (Word → Bool) → ℕ → Bool
  some_token zero size stops test i = false
  some_token (suc n) size stops test i =
      let (w, j) = read_next_token2 size i in check w (some_token n size stops test j)
    where
      check : Option Word → Bool → Bool
      check none rest = false
      check (some w) rest = if is_among stops w then false else if test w then true else rest

  -- The kind, by the first token; its index is within the text.
  unfoldable pub kind_of : (size : ℕ) → Word → ℕ → Option Kind
  kind_of size word i =
      if head word == 40
      then some subshell_kind
      else if same_word word word_if
      then some if_kind
      else if same_word word word_while
      then some while_kind
      else if same_word word word_until
      then some until_kind
      else if is_among misplaced word || (head word == 41)
      then none
      else if has_pipe word || some_token size size keywords has_pipe i
      then some pipe_kind
      else if has_char 59 word
          || some_token size size (word_in ∷ word_esac ∷ keywords) (has_char 59) i
      then some sequence_kind
      else some simple_kind

  -- The index moves to the first byte of the command. The rounds are at most one more than the bytes left.
  unfoldable pub get_command_type : ℕ → (size : ℕ) → Place → Parse Kind
  get_command_type zero size p = no_fuel
  get_command_type (suc fuel) size p =
      let q = record p { index = past_spaces (size - p.index) p.index } in
      let c = start q.index in
      let rest = get_command_type fuel size (advance (if c == newline then next_line q else q)) in
      if ltb p.index size
      then (if c == newline
          then rest
          else if not (is_valid_char c) && not (is_special_char c)
          then syntax_error q.line
          else first (read_next_token size q.index) q rest)
      else parsed simple_kind p
    where
      kind : Option Kind → Place → Parse Kind
      kind none q = syntax_error q.line
      kind (some k) q = parsed k q

      first : Option Word → Place → Parse Kind → Parse Kind
      first none q rest = rest
      first (some word) q rest = kind (kind_of size word q.index) q
