-- ===== src/Shell/Parse/Script.antt =====
-- A script of lines of words is read as its list of simple commands (lab1/read-command.c).
use Prim.Native.String.{String}
use cs111fall.Prelude.{
  ℕ, zero, suc, ◌+◌, ◌-◌, ◌≤◌, ◌<◌, ◌≡◌, refl, true, false, List, [], ◌∷◌, ◌++◌, map, length,
  length-append, arith, ltb,
}
use cs111fall.Shell.Syntax.{Command, simple_command}
use cs111fall.Shell.Parse.Text.{Text, Word, parsed}
use cs111fall.Shell.Parse.Kind.{simple_kind}
use cs111fall.Shell.Parse.Create.{fresh, create_command}
use cs111fall.Shell.Parse.Stream.{what_next, make_command_stream}
use cs111fall.Shell.Parse.Simple.{
  Spells, Spells-append, IsPlainWord, ArePlain, render, valid_ordinary,
  create_simple_command-render,
}
use cs111fall.Shell.Parse.Lines.{first_byte, past_spaces-valid, get_command_type-render}

-- The words of a line, the first one and the others.
abbrev pub Line : Type 0
Line = Word × List Word

abbrev pub ArePlainLines : List Line → Type 0
ArePlainLines [] = Unit {0}
ArePlainLines ((w, ws) ∷ lines) = IsPlainWord w × ArePlain ws × ArePlainLines lines

abbrev pub render_lines : List Line → Word
render_lines [] = []
render_lines ((w, ws) ∷ lines) = render (w ∷ ws) ++ render_lines lines

abbrev pub commands : (Word → String) → List Line → List Command
commands string [] = []
commands string ((w, ws) ∷ lines) =
    simple_command fresh (map string (w ∷ ws)) ∷ commands string lines

module _ (string : Word → String) (start : Text) (size : ℕ) where
  create_command-render :
      (w : Word) (ws : List Word) (fuel line i : ℕ)
      → IsPlainWord w
      → ArePlain ws
      → Spells start i (render (w ∷ ws))
      → i + length (render (w ∷ ws)) ≤ size
      → length (render (w ∷ ws)) < fuel
      → create_command string start size (suc fuel) simple_kind (record { index = i; line = line })
        ≡ parsed
            (simple_command fresh (map string (w ∷ ws)))
            (record { index = i + length (render (w ∷ ws)); line = suc line })
  unfolding create_command
  create_command-render w ws fuel line i p plain s fits enough =
      create_simple_command-render string start size w ws fuel line i p plain s fits enough

  -- A script of lines of words, each word of fewer than 24 valid bytes and no keyword, with a space after each word:
  -- the stream has one simple command for each line, with just its words and no redirections, and the parser
  -- stands at the end of the text, having counted the lines. The fuel is at least three more than the bytes of
  -- the script.
  pub make_command_stream-render :
      (lines : List Line) (fuel line i : ℕ)
      → ArePlainLines lines
      → Spells start i (render_lines lines)
      → i + length (render_lines lines) ≡ size
      → length (render_lines lines) + 2 < fuel
      → make_command_stream string start size fuel (record { index = i; line = line })
        ≡ parsed (commands string lines) (record { index = size; line = line + length lines })
  unfolding make_command_stream what_next
  make_command_stream-render lines zero line i plain s whole enough = absurd (omega arith)
  make_command_stream-render [] (suc fuel) line i plain s whole enough =
      let done : ltb i size ≡ false = ground (arith, whole) in
      let here : i ≡ size = omega (arith, whole) in
      let same : line + 0 ≡ line = omega arith in
      let none_left : size - size ≡ 0 = omega arith in rw (done, same, here, none_left) refl
  make_command_stream-render ((w, ws) ∷ lines) (suc zero) line i plain s whole enough =
      absurd (omega arith)
  make_command_stream-render ((w, ws) ∷ lines) (suc (suc fuel)) line i (p, plain, plains) s whole
        enough =
      let (here, rest) = Spells-append start i (render (w ∷ ws)) (render_lines lines) s in
      let total = length-append (render (w ∷ ws)) (render_lines lines) in
      let count = length-append w (32 ∷ render ws) in
      let (sw, after) = Spells-append start i w (32 ∷ render ws) here in
      let v = first_byte start i w p sw in
      let (space, blank, comment, hash, end) = valid_ordinary (start i) v in
      let inside : ltb i size ≡ true = ground (arith, whole, total, count) in
      let one =
        get_command_type-render start size w ws i p plain here (omega (arith, whole, total)) fuel
          line in
      let two =
        create_command-render w ws fuel line i p plain here (omega (arith, whole, total))
          (omega (arith, total, count)) in
      let three =
        make_command_stream-render lines (suc fuel) (suc line) (i + length (render (w ∷ ws))) plains
          rest (omega (arith, whole, total)) (omega (arith, total, count)) in
      let lines_sum : suc line + length lines ≡ line + suc (length lines) = omega arith in
      rw (inside, past_spaces-valid start _ i v, end, hash, one, two, three, lines_sum) refl
