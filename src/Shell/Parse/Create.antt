-- ===== src/Shell/Parse/Create.antt =====
-- lab1/read-command.c: the functions that read one command, each kind by its own.
use Prim.Native.String.{String}
use cs111fall.Prelude.{
  ℕ, zero, suc, ◌-◌, Bool, true, false, ◌&&◌, ◌||◌, not, Option, none, some, List, [], ◌∷◌, ◌++◌,
  length, ltb, ◌==◌, if◌then◌else◌,
}
use cs111fall.Shell.Syntax.{
  Info, Command, if_command, pipe_command, sequence_command, simple_command, subshell_command,
  until_command, while_command, no_branch, branch, unknown,
}
use cs111fall.Shell.Parse.Text.{
  Text, Word, Place, Parse, parsed, syntax_error, null_word, no_fuel, and_parse, advance, next_line,
  eof, newline, is_valid_char, is_special_char, is_space, same_word, skip_line, get_next_word,
}
use cs111fall.Shell.Parse.Kind.{
  Kind, if_kind, pipe_kind, sequence_kind, simple_kind, subshell_kind, until_kind, while_kind,
  word_then, word_else, word_fi, word_do, word_done, is_among, keywords, head, read_next_token,
  get_command_type,
}

-- `initialize_command`: no status and no redirections.
abbrev pub fresh : Info
fresh = record { status = unknown; input = none; output = none }

-- `strcmp(temp, word)` needs a string.
abbrev pub need : {A : Type 0} → Option Word → (Word → Parse A) → Parse A
need none k = null_word
need (some w) k = k w

-- A word without which the command is an error.
abbrev pub expect : {A : Type 0} → Option Word → ℕ → (Word → Parse A) → Parse A
expect none line k = syntax_error line
expect (some w) line k = k w

-- The cases of the loop of `create_simple_command`.
pub data Class : Type 0 where
  past_end : Class
  space : Class
  comment : Class
  line_end : Class
  letter : Class
  less : Class
  greater : Class
  special : Class
  other : Class

-- `string` makes the bytes of a word the texts of a command.
module _ (string : Word → String) (start : Text) (size : ℕ) where
  -- A loop over the bytes up to one that ends it; some bytes, with the byte after them, are errors.
  unfoldable pub skip_to : ℕ → (stop : ℕ → Bool) → (bad : ℕ → ℕ → Bool) → Place → Parse Unit
  skip_to zero stop bad p = no_fuel
  skip_to (suc fuel) stop bad p =
      let c = start p.index in
      let q = if c == newline then next_line p else p in
      let rest = skip_to fuel stop bad (advance q) in
      if (c == eof) || stop c
      then parsed tt p
      else if bad c (start (suc p.index))
      then syntax_error q.line
      else rest

  -- The first place from an index on whose byte, and the byte after it, pass a test.
  unfoldable pub find_byte : ℕ → (ℕ → ℕ → Bool) → ℕ → Option ℕ
  find_byte zero test i = none
  find_byte (suc fuel) test i =
      let rest = find_byte fuel test (suc i) in
      if test (start i) (start (suc i)) then some i else rest

  -- The file name after a redirection sign; `required` is whether it is an error if there is none.
  abbrev pub file_name :
      ℕ → (required : Bool) → Place → (Option String → Place → Parse Command) → Parse Command
  file_name fuel required p k = and_parse (get_next_word start size fuel p) name
    where
      name : Option Word → Place → Parse Command
      name none q = if required then syntax_error q.line else k none q
      name (some w) q = k (some (string w)) q

  -- What follows the closing word of a command: the end of the line, or one redirection. `strict` is the way
  -- of `while`, which refuses all else and does not require the file name.
  unfoldable pub redirection : ℕ → (strict : Bool) → (Info → Command) → Place → Parse Command
  redirection fuel strict make p =
      if start p.index == newline
      then parsed (make fresh) p
      else need (read_next_token start size p.index) sign
    where
      sign : Word → Parse Command
      sign w =
          if head w == 60
          then and_parse (get_next_word start size fuel p) (λ t q.
            file_name fuel (not strict) (advance q)
              (λ f. parsed (make (record fresh { input = f }))))
          else if head w == 62
          then and_parse (get_next_word start size fuel p) (λ t q.
            file_name fuel (not strict) (advance q)
              (λ f. parsed (make (record fresh { output = f }))))
          else if strict
          then syntax_error p.line
          else parsed (make fresh) p

  unfoldable pub classify : ℕ → Class
  classify i =
      let c = start i in
      if not (ltb i size)
      then past_end
      else if is_space c
      then space
      else if c == 35
      then comment
      else if c == newline
      then line_end
      else if is_valid_char c
      then letter
      else if c == 60
      then less
      else if c == 62
      then greater
      else if is_special_char c
      then special
      else other

  -- A round of the loop of `create_simple_command`: the redirections and the words so far, and whether there
  -- was a word; `go` is the rest of the loop.
  module _ (fuel : ℕ) (go : Bool → Info → List String → Place → Parse Command) (seen : Bool)
      (i : Info) (words : List String) (p : Place) where
    abbrev simple_end : Place → Parse Command
    simple_end q = if seen then parsed (simple_command i words) q else syntax_error q.line

    -- A keyword is left for the command around; it counts as a word for the test at the end.
    abbrev simple_word : Word → Place → Parse Command
    simple_word w q =
        if is_among keywords w
        then parsed (simple_command i words) (record q { index = q.index - length w })
        else go true i (words ++ (string w ∷ [])) q

    abbrev redirect_once : Option String → (Option String → Info) → Parse Command
    redirect_once (some f) set = syntax_error p.line
    redirect_once none set = file_name fuel true (advance p) (λ f. go seen (set f) words)

    abbrev simple_round : Class → Parse Command
    simple_round past_end = simple_end p
    simple_round space = go seen i words (advance p)
    simple_round comment =
        and_parse (skip_line start size fuel p) (λ u q. go seen i words (advance q))
    simple_round line_end = simple_end (advance (next_line p))
    simple_round letter =
        and_parse (get_next_word start size fuel p) (λ w q. need w (λ w. simple_word w q))
    simple_round less = redirect_once i.input (λ f. record i { input = f })
    simple_round greater = redirect_once i.output (λ f. record i { output = f })
    simple_round special = simple_end p
    simple_round other = syntax_error p.line

    unfoldable pub simple_step : Parse Command
    simple_step = simple_round (classify p.index)

  unfoldable pub simple_from : ℕ → Bool → Info → List String → Place → Parse Command
  simple_from zero seen i words p = no_fuel
  simple_from (suc fuel) seen i words p = simple_step fuel (simple_from fuel) seen i words p

  unfoldable pub create_simple_command : ℕ → Place → Parse Command
  create_simple_command fuel p = simple_from fuel false fresh [] p

  -- The other kinds read the commands below them with `go`.
  module _ (fuel : ℕ) (go : Kind → Place → Parse Command) where
    -- A command within the first `limit` bytes, its kind first.
    abbrev pub next_command : (limit : ℕ) → Place → Parse Command
    next_command limit p = and_parse (get_command_type start fuel limit p) go

    -- The word after a command: at the end of the text it is missing.
    abbrev pub word_after : Place → (Option Word → Place → Parse Command) → Parse Command
    word_after p k =
        if p.index == size
        then syntax_error p.line
        else and_parse (get_next_word start size fuel p) k

    -- `if A then B fi`, or with an `else` before the `fi`.
    unfoldable pub create_if_command : Place → Parse Command
    create_if_command p = and_parse (get_next_word start size fuel p) λ t p0.
        and_parse (next_command size p0) λ a p1. word_after p1 λ w p2. expect w p2.line λ w.
          if same_word w word_then
          then and_parse (next_command size p2) (λ b p3. word_after p3 λ v p4. expect v p4.line λ v.
            if same_word v word_fi
            then parsed (if_command fresh a b no_branch) p4
            else if same_word v word_else
            then and_parse (next_command size p4) (λ e p5.
              and_parse (get_next_word start size fuel p5) λ u p6. expect u p6.line λ u.
                if same_word u word_fi
                then redirection fuel false (λ i. if_command i a b (branch e)) p6
                else syntax_error p6.line)
            else syntax_error p4.line)
          else syntax_error p2.line

    unfoldable pub create_pipe_command : Place → Parse Command
    create_pipe_command p = at (find_byte fuel (λ c d. (c == 124) && not (d == 124)) p.index)
      where
        at : Option ℕ → Parse Command
        at none = no_fuel
        at (some limit) = and_parse (next_command limit p) λ a p1.
            and_parse (skip_to fuel (λ c. c == 124) (λ c d. false) p1) λ u p2.
              and_parse (next_command size (advance p2)) λ b p3. parsed (pipe_command fresh a b) p3

    -- A semicolon before a word that closes a part of a command ends the sequence.
    unfoldable pub create_sequence_command : Place → Parse Command
    create_sequence_command p = at (find_byte fuel (λ c d. c == 59) p.index)
      where
        second : Command → Place → Word → Parse Command
        second a q w =
            if is_among (word_do ∷ word_then ∷ word_done ∷ word_else ∷ word_fi ∷ []) w
            then parsed a q
            else and_parse (next_command size q) (λ b. parsed (sequence_command fresh a b))

        at : Option ℕ → Parse Command
        at none = no_fuel
        at (some limit) =
            if limit == p.index
            then syntax_error p.line
            else and_parse (next_command limit p) (λ a p1.
              and_parse (skip_to fuel (λ c. c == 59) (λ c d. c == 41) p1)
                λ u p2. need (read_next_token start size (suc p2.index)) (second a (advance p2)))

    unfoldable pub create_subshell_command : Place → Parse Command
    create_subshell_command p = and_parse (next_command size (advance p)) λ a p1.
        and_parse (skip_to fuel (λ c. c == 41) (λ c d. (c == newline) || (d == eof)) p1)
          λ u p2. redirection fuel false (λ i. subshell_command i a) (advance p2)

    -- `do B done`, after the condition of a loop.
    abbrev loop_body : (strict : Bool) → (Info → Command → Command) → Place → Parse Command
    loop_body strict make p = and_parse (next_command size p) λ b p1. word_after p1 λ v p2.
        need v λ v.
          if same_word v word_done
          then redirection fuel strict (λ i. make i b) p2
          else syntax_error p2.line

    unfoldable pub create_until_command : Place → Parse Command
    create_until_command p = and_parse (get_next_word start size fuel p) λ t p0.
        and_parse (next_command size p0) λ a p1. word_after p1 λ w p2. need w λ w.
          if same_word w word_do
          then loop_body false (λ i b. until_command i a b) p2
          else syntax_error p2.line

    -- A word that is not `do` begins a second command of the condition.
    unfoldable pub create_while_command : Place → Parse Command
    create_while_command p = and_parse (get_next_word start size fuel p) λ t p0.
        and_parse (next_command size p0) λ a p1. word_after p1 λ w p2. need w λ w.
          if same_word w word_do
          then loop_body true (λ i b. while_command i a b) p2
          else and_parse (create_simple_command fuel (record p2 { index = p2.index - length w }))
              (λ a2 p3. and_parse (get_next_word start size fuel p3) λ v p4. need v λ v.
                if same_word v word_do
                then loop_body true (λ i b. while_command i (sequence_command fresh a a2) b) p4
                else syntax_error p4.line)

  -- The fuel bounds the depth of the commands and the bytes that each function reads.
  unfoldable pub create_command : ℕ → Kind → Place → Parse Command
  create_command zero k p = no_fuel
  create_command (suc fuel) if_kind p = create_if_command fuel (create_command fuel) p
  create_command (suc fuel) pipe_kind p = create_pipe_command fuel (create_command fuel) p
  create_command (suc fuel) sequence_kind p = create_sequence_command fuel (create_command fuel) p
  create_command (suc fuel) simple_kind p = create_simple_command fuel p
  create_command (suc fuel) subshell_kind p = create_subshell_command fuel (create_command fuel) p
  create_command (suc fuel) until_kind p = create_until_command fuel (create_command fuel) p
  create_command (suc fuel) while_kind p = create_while_command fuel (create_command fuel) p
