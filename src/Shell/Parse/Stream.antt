-- ===== src/Shell/Parse/Stream.antt =====
-- lab1/read-command.c: the commands of a script.
use Prim.Native.String.{String}
use cs111fall.Prelude.{
  ℕ, zero, suc, ◌-◌, Option, none, some, List, [], ◌∷◌, not, ltb, ◌==◌, if◌then◌else◌,
}
use cs111fall.Shell.Syntax.{Command}
use cs111fall.Shell.Parse.Text.{
  Text, Word, Place, Parse, parsed, and_parse, no_fuel, advance, next_line, newline,
}
use cs111fall.Shell.Parse.Kind.{past_spaces, get_command_type}
use cs111fall.Shell.Parse.Create.{create_command}

-- What the loop over the script does next.
pub data Next : Type 0 where
  nothing : Next
  blank_line : Next
  comment_line : Next
  command : Next

module _ (string : Word → String) (start : Text) (size : ℕ) where
  -- To the next line, which counts, or to the end of the text.
  unfoldable pub read_comments : ℕ → Place → Place
  read_comments zero p = next_line p
  read_comments (suc n) p =
      let rest = read_comments n (advance p) in
      if start p.index == newline then next_line p else rest

  abbrev pub with_first : Command → Parse (List Command) → Parse (List Command)
  with_first c o = and_parse o λ rest. parsed (c ∷ rest)

  unfoldable pub what_next : (at from : ℕ) → Next
  what_next at from =
      if not (ltb at size)
      then nothing
      else if start from == newline
      then blank_line
      else if start from == 35
      then comment_line
      else command

  -- A round of the loop over the script; `go` is the rest of it.
  abbrev pub stream_round : ℕ → (Place → Parse (List Command)) → Next → Place → Parse (List Command)
  stream_round fuel go nothing q = parsed [] q
  stream_round fuel go blank_line q = go (advance (next_line q))
  stream_round fuel go comment_line q = go (advance (read_comments (size - q.index) q))
  stream_round fuel go command q = and_parse (get_command_type start fuel size q) λ k p1.
      and_parse (create_command string start size fuel k p1) λ cmd p2. with_first cmd (go p2)

  -- The list of the commands; the fuel bounds what each command takes.
  unfoldable pub make_command_stream : ℕ → Place → Parse (List Command)
  make_command_stream zero p = no_fuel
  make_command_stream (suc fuel) p =
      let from = past_spaces start (size - p.index) p.index in
      stream_round fuel (make_command_stream fuel) (what_next p.index from)
        (record p { index = from })

-- The first command, and the rest of the stream. The last node of the list has a command that nothing sets,
-- and `none` is the pointer that is found there, whatever it is, or the null pointer after it.
unfoldable pub read_command_stream : List Command → Option Command × List Command
read_command_stream [] = (none, [])
read_command_stream (c ∷ rest) = (some c, rest)
