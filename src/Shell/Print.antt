-- ===== src/Shell/Print.antt =====
-- lab1/print-command.c: how a command tree is printed, as the pieces that `printf` and `putchar` get.
use Prim.Native.String.{String}
use cs111fall.Prelude.{ℕ, ◌+◌, Bool, true, false, Option, none, some, List, [], ◌∷◌, ◌++◌}
use cs111fall.Shell.Syntax.{
  Info, Command, Branch, if_command, pipe_command, sequence_command, simple_command,
  subshell_command, until_command, while_command, no_branch, branch,
}

-- A text, the spaces of `%*s`, the digits of `%d`, and what `%s` makes of the null pointer at the end of a command
-- without words, with all that is printed for the pointers that are read after it.
pub data Piece : Type 0 where
  text : String → Piece
  spaces : ℕ → Piece
  number : ℕ → Piece
  past_words : Piece

-- The tests `c->u.command[0]->type != c->type` of the two types that ask.
abbrev pub is_sequence : Command → Bool
is_sequence (sequence_command i a b) = true
is_sequence _ = false

abbrev pub is_pipe : Command → Bool
is_pipe (pipe_command i a b) = true
is_pipe _ = false

-- `indent + 2 * (c->u.command[0]->type != c->type)`.
abbrev pub nested : (same_type : Bool) → ℕ → ℕ
nested true indent = indent
nested false indent = indent + 2

abbrev pub print_redirection : String → Option String → List Piece
print_redirection mark none = []
print_redirection mark (some file) = text mark ∷ text file ∷ []

abbrev pub print_redirections : Info → List Piece
print_redirections i = print_redirection "<" i.input ++ print_redirection ">" i.output

-- `printf (" \\\n%*s%c\n", indent, "", separator)`.
abbrev pub separator : ℕ → String → List Piece
separator indent c = text " \\\n" ∷ spaces indent ∷ text c ∷ text "\n" ∷ []

abbrev pub print_words : List String → List Piece
print_words [] = []
print_words (word ∷ rest) = text " " ∷ text word ∷ print_words rest

abbrev pub print_simple : ℕ → List String → List Piece
print_simple indent [] = spaces indent ∷ past_words ∷ []
print_simple indent (word ∷ rest) = spaces indent ∷ text word ∷ print_words rest

unfoldable mutual
  pub command_indented_print : ℕ → Command → List Piece
  command_indented_print n (if_command i a b e) =
      spaces n ∷ text "if\n" ∷ command_indented_print (n + 2) a
      ++ text "\n" ∷ spaces n ∷ text "then\n" ∷ command_indented_print (n + 2) b
      ++ print_else n e
      ++ text "\n" ∷ spaces n ∷ text "fi" ∷ print_redirections i
  command_indented_print n (until_command i a b) =
      spaces n ∷ text "until\n" ∷ command_indented_print (n + 2) a
      ++ text "\n" ∷ spaces n ∷ text "do\n" ∷ command_indented_print (n + 2) b
      ++ text "\n" ∷ spaces n ∷ text "done" ∷ print_redirections i
  command_indented_print n (while_command i a b) =
      spaces n ∷ text "while\n" ∷ command_indented_print (n + 2) a
      ++ text "\n" ∷ spaces n ∷ text "do\n" ∷ command_indented_print (n + 2) b
      ++ text "\n" ∷ spaces n ∷ text "done" ∷ print_redirections i
  command_indented_print n (sequence_command i a b) =
      command_indented_print (nested (is_sequence a) n) a
      ++ separator n ";"
      ++ command_indented_print (nested (is_sequence b) n) b
      ++ print_redirections i
  command_indented_print n (pipe_command i a b) =
      command_indented_print (nested (is_pipe a) n) a
      ++ separator n "|"
      ++ command_indented_print (nested (is_pipe b) n) b
      ++ print_redirections i
  command_indented_print n (simple_command i word) = print_simple n word ++ print_redirections i
  command_indented_print n (subshell_command i a) =
      spaces n ∷ text "(\n" ∷ command_indented_print (n + 1) a
      ++ text "\n" ∷ spaces n ∷ text ")" ∷ print_redirections i

  pub print_else : ℕ → Branch → List Piece
  print_else n no_branch = []
  print_else n (branch e) = text "\n" ∷ spaces n ∷ text "else\n" ∷ command_indented_print (n + 2) e

unfoldable pub print_command : Command → List Piece
print_command c = command_indented_print 2 c ++ (text "\n" ∷ [])
