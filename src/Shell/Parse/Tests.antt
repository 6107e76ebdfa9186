-- ===== src/Shell/Parse/Tests.antt =====
-- The parser of lab1/read-command.c on small scripts.
use Prim.Native.String.{String}
use cs111fall.Prelude.{
  ℕ, ◌≡◌, refl, Option, none, some, List, [], ◌∷◌, length, get_elem?, arith, if◌then◌else◌,
}
use cs111fall.Shell.Syntax.{
  Command, simple_command, if_command, no_branch, pipe_command, sequence_command,
}
use cs111fall.Shell.Parse.Text.{
  Text, Word, Parse, parsed, is_valid_char, is_special_char, get_next_word, skip_blank, skip_line,
  word_at, valid_from,
}
use cs111fall.Shell.Parse.Kind.{
  has_char, get_command_type, read_next_token, read_next_token2, kind_of, has_pipe, some_token,
  past_blanks, token_length,
}
use cs111fall.Shell.Parse.Create.{
  fresh, create_simple_command, create_command, create_pipe_command, create_sequence_command,
  create_if_command, simple_from, simple_step, classify, find_byte, skip_to,
}
use cs111fall.Shell.Parse.Stream.{what_next, make_command_stream}
use cs111fall.Shell.Parse.Simple.{IsPlainWord, render, create_simple_command-render}
use cs111fall.Shell.Parse.Script.{Line, render_lines, commands, make_command_stream-render}

-- `a`, or else `b`.
abbrev letter : Word → String
letter w = if has_char 97 w then "a" else "b"

-- A text of these bytes, with zeros after it.
abbrev or_zero : Option ℕ → ℕ
or_zero none = 0
or_zero (some c) = c

abbrev text_of : Word → Text
text_of w i = or_zero (get_elem? w i)

abbrev lines : List Line
lines = (97 ∷ [], (98 ∷ []) ∷ []) ∷ (98 ∷ [], []) ∷ []

a-IsPlainWord : IsPlainWord (97 ∷ [])
unfolding is_valid_char
a-IsPlainWord = record {
  valid = (refl, tt);
  some_byte = omega arith;
  short = omega arith;
  no_keyword = refl;
}

b-IsPlainWord : IsPlainWord (98 ∷ [])
unfolding is_valid_char
b-IsPlainWord = record {
  valid = (refl, tt);
  some_byte = omega arith;
  short = omega arith;
  no_keyword = refl;
}

make_command_stream-render_example :
    make_command_stream letter (text_of (render_lines lines)) 8 20 (record { index = 0; line = 1 })
    ≡ parsed (commands letter lines) (record { index = 8; line = 3 })
make_command_stream-render_example =
    make_command_stream-render letter (text_of (render_lines lines)) 8 lines 20 1 0
      (a-IsPlainWord, (b-IsPlainWord, tt), (b-IsPlainWord, tt, tt))
      (refl, (refl, (refl, (refl, (refl, (refl, (refl, (refl, tt)))))))) refl (omega arith)

create_simple_command-render_example :
    create_simple_command letter
      (text_of (render ((97 ∷ []) ∷ (98 ∷ []) ∷ [])))
      5
      9
      (record { index = 0; line = 1 })
    ≡ parsed (simple_command fresh ("a" ∷ "b" ∷ [])) (record { index = 5; line = 2 })
create_simple_command-render_example =
    create_simple_command-render letter (text_of (render ((97 ∷ []) ∷ (98 ∷ []) ∷ []))) 5 (97 ∷ [])
      ((98 ∷ []) ∷ []) 9 1 0 a-IsPlainWord (b-IsPlainWord, tt)
      (refl, (refl, (refl, (refl, (refl, tt))))) (omega arith) (omega arith)

-- `if a`, `then b` and `fi` on three lines, and `a | b;a` on one.
abbrev if_script : Word
if_script = 105 ∷ 102 ∷ 32 ∷ 97 ∷ 10 ∷ 116 ∷ 104 ∷ 101 ∷ 110 ∷ 32 ∷ 98 ∷ 10 ∷ 102 ∷ 105 ∷ 10 ∷ []

abbrev pipe_script : Word
pipe_script = 97 ∷ 32 ∷ 124 ∷ 32 ∷ 98 ∷ 59 ∷ 97 ∷ 10 ∷ []

abbrev run : Word → Parse (List Command)
run w = make_command_stream letter (text_of w) (length w) 30 (record { index = 0; line = 1 })

-- The pipe takes the whole sequence as its right side.
pipe_test :
    run pipe_script
    ≡ parsed
        (pipe_command fresh (simple_command fresh ("a" ∷ [])) (
            sequence_command fresh
              (simple_command fresh ("b" ∷ []))
              (simple_command fresh ("a" ∷ [])))
          ∷ [])
        (record { index = 8; line = 2 })
unfolding make_command_stream what_next get_command_type read_next_token read_next_token2 kind_of
    has_pipe some_token past_blanks token_length is_valid_char is_special_char create_command
    create_pipe_command create_sequence_command create_simple_command simple_from simple_step
    classify find_byte skip_to get_next_word skip_blank skip_line word_at valid_from
pipe_test = refl

if_test :
    run if_script
    ≡ parsed
        (if_command fresh
            (simple_command fresh ("a" ∷ []))
            (simple_command fresh ("b" ∷ []))
            no_branch
          ∷ [])
        (record { index = 15; line = 4 })
unfolding make_command_stream what_next get_command_type read_next_token read_next_token2 kind_of
    has_pipe some_token past_blanks token_length is_valid_char is_special_char create_command
    create_if_command create_simple_command simple_from simple_step classify get_next_word
    skip_blank skip_line word_at valid_from
if_test = refl
