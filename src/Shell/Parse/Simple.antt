-- ===== src/Shell/Parse/Simple.antt =====
-- A line of words is read back by `create_simple_command` of lab1/read-command.c.
use Prim.Native.String.{String}
use cs111fall.Prelude.{
  ℕ, zero, suc, ◌+◌, ◌≤◌, ◌<◌, ◌≡◌, refl, ◌≢◌, sym, ap, ◌∙◌, Bool, true, false, some, List, [], ◌∷◌,
  ◌++◌, map, length, length-append, arith, ltb, ◌==◌, ne→==,
}
use mathlib.Core.List.{append_assoc}
use cs111fall.Shell.Syntax.{Command, simple_command, Info}
use cs111fall.Shell.Parse.Text.{
  Text, Word, Parse, parsed, is_valid_char, is_space, is_blank, starts_comment, valid_from, word_at,
  least_chunk, skip_blank, get_next_word, newline,
}
use cs111fall.Shell.Parse.Kind.{is_among, keywords}
use cs111fall.Shell.Parse.Create.{fresh, classify, simple_step, simple_from, create_simple_command}

-- The text has these bytes from an index on.
abbrev pub Spells : Text → ℕ → Word → Type 0
Spells start i [] = Unit {0}
Spells start i (c ∷ w) = (start i ≡ c) × Spells start (suc i) w

abbrev pub IsValid : Word → Type 0
IsValid [] = Unit {0}
IsValid (c ∷ w) = (is_valid_char c ≡ true) × IsValid w

-- A word that a simple command can have: of at least one byte and fewer than 24, and no keyword.
pub record IsPlainWord (w : Word) : Type 0 where
  pub valid : IsValid w
  pub some_byte : 0 < length w
  pub short : length w < least_chunk
  pub no_keyword : is_among keywords w ≡ false

abbrev pub ArePlain : List Word → Type 0
ArePlain [] = Unit {0}
ArePlain (w ∷ ws) = IsPlainWord w × ArePlain ws

-- The words as the profile writes them, each with a space after it, and the end of the line.
abbrev pub render : List Word → Word
render [] = newline ∷ []
render (w ∷ ws) = w ++ (32 ∷ render ws)

pub Spells-append :
    (start : Text) (i : ℕ) (v w : Word)
    → Spells start i (v ++ w)
    → Spells start i v × Spells start (i + length v) w
Spells-append start i [] w s = let here : i + 0 ≡ i = omega arith in (tt, rw here s)
Spells-append start i (c ∷ v) w (e, s) =
    let (a, b) = Spells-append start (suc i) v w s in
    let sum : suc i + length v ≡ i + suc (length v) = omega arith in ((e, a), rw sum at b)

module _ (c : ℕ) (v : is_valid_char c ≡ true) where
  pub valid_ne : (k : ℕ) → is_valid_char k ≡ false → c ≢ k
  valid_ne k f e = let clash : true ≡ false = sym v ∙ ap is_valid_char e ∙ f in absurd (cc)

  pub valid_ordinary :
      (is_space c ≡ false)
      × (is_blank c ≡ false)
      × (starts_comment c ≡ false)
      × ((c == 35) ≡ false)
      × ((c == newline) ≡ false)
  unfolding is_valid_char
  valid_ordinary =
      let n32 = ne→== c 32 (valid_ne 32 refl) in
      let n9 = ne→== c 9 (valid_ne 9 refl) in
      let n10 = ne→== c 10 (valid_ne 10 refl) in
      let n35 = ne→== c 35 (valid_ne 35 refl) in
      let n92 = ne→== c 92 (valid_ne 92 refl) in
      (rw (n32, n9) refl, rw (n32, n9, n10) refl, rw (n35, n92) refl, n35, n10)

module _ (start : Text) where
  -- The bytes of a word, and no more.
  valid_from_lem :
      (size fuel i : ℕ) (w : Word)
      → IsValid w
      → Spells start i w
      → is_valid_char (start (i + length w)) ≡ false
      → length w < fuel
      → valid_from start size fuel i ≡ some w
  unfolding valid_from
  valid_from_lem size zero i w v s stop enough = absurd (omega arith)
  valid_from_lem size (suc fuel) i [] v s stop enough =
      let here : i + 0 ≡ i = omega arith in rw (rw here at stop) refl
  valid_from_lem size (suc fuel) i (c ∷ w) (v, vs) (e, s) stop enough =
      let sum : i + suc (length w) ≡ suc i + length w = omega arith in
      let rest = valid_from_lem size fuel (suc i) w vs s (rw sum at stop) (omega arith) in
      let v' : is_valid_char (start i) ≡ true = rw e v in rw (v', rest) (ap (λ a. some (a ∷ w)) e)

  get_next_word_lem :
      (size fuel line i : ℕ) (c : ℕ) (w : Word)
      → IsValid (c ∷ w)
      → Spells start i (c ∷ w)
      → is_valid_char (start (i + length (c ∷ w))) ≡ false
      → length (c ∷ w) < fuel
      → length (c ∷ w) < least_chunk
      → get_next_word start size fuel (record { index = i; line = line })
        ≡ parsed (some (c ∷ w)) (record { index = i + length (c ∷ w); line = line })
  unfolding get_next_word skip_blank word_at
  get_next_word_lem size zero line i c w v s stop enough short = absurd (omega arith)
  get_next_word_lem size (suc fuel) line i c w v s stop enough short =
      let v' : is_valid_char (start i) ≡ true = rw s.0 v.0 in
      let (space, blank, comment, hash, end) = valid_ordinary (start i) v' in
      let fits : ltb (length (c ∷ w)) least_chunk ≡ true = ground arith in
      rw (blank, comment, valid_from_lem size (suc fuel) i (c ∷ w) v s stop enough, fits) refl

module _ (string : Word → String) (start : Text) (size : ℕ) where
  -- The loop at the first byte of a plain word takes the word.
  simple_from_word :
      (fuel line i : ℕ) (w : Word) (seen : Bool) (info : Info) (words : List String)
      → IsPlainWord w
      → Spells start i w
      → is_valid_char (start (i + length w)) ≡ false
      → i < size
      → length w < fuel
      → simple_from string start size (suc fuel) seen info words (record { index = i; line = line })
        ≡ simple_from string start size fuel true info
            (words ++ (string w ∷ []))
            (record { index = i + length w; line = line })
  unfolding simple_from simple_step classify
  simple_from_word fuel line i [] seen info words plain s stop within enough =
      absurd (omega (arith, plain.some_byte))
  simple_from_word fuel line i (c ∷ w) seen info words plain s stop within enough =
      let v' : is_valid_char (start i) ≡ true = rw s.0 plain.valid.0 in
      let (space, blank, comment, hash, end) = valid_ordinary (start i) v' in
      let inside : ltb i size ≡ true = ground arith in
      rw
        (
          inside,
          space,
          hash,
          end,
          v',
          get_next_word_lem start size fuel line i c w plain.valid s stop enough plain.short,
          plain.no_keyword,
        )
        refl

  simple_from_space :
      (fuel line i : ℕ) (info : Info) (words : List String)
      → start i ≡ 32
      → i < size
      → simple_from string start size (suc fuel) true info words (record { index = i; line = line })
        ≡ simple_from string start size fuel true info words (record { index = suc i; line = line })
  unfolding simple_from simple_step classify
  simple_from_space fuel line i info words e within =
      let inside : ltb i size ≡ true = ground arith in rw (inside, e) refl

  simple_from-newline :
      (fuel line i : ℕ) (info : Info) (words : List String)
      → start i ≡ newline
      → i < size
      → simple_from string start size (suc fuel) true info words (record { index = i; line = line })
        ≡ parsed (simple_command info words) (record { index = suc i; line = suc line })
  unfolding simple_from simple_step classify
  simple_from-newline fuel line i info words e within =
      let inside : ltb i size ≡ true = ground arith in rw (inside, e) refl

  pub length-render :
      (w : Word) (ws : List Word) → length (render (w ∷ ws)) ≡ length w + suc (length (render ws))
  length-render w ws = length-append w (32 ∷ render ws)

  space_invalid : is_valid_char 32 ≡ false
  unfolding is_valid_char
  space_invalid = refl

  -- The first word and its space; what follows is left.
  first_word :
      (w : Word) (ws : List Word) (fuel line i : ℕ) (seen : Bool) (info : Info)
      (words : List String) (o : Parse Command)
      → IsPlainWord w
      → Spells start i (render (w ∷ ws))
      → i + length (render (w ∷ ws)) ≤ size
      → length (render (w ∷ ws)) < suc (suc fuel)
      → (Spells start (suc (i + length w)) (render ws)
          → simple_from string start size fuel true info
              (words ++ (string w ∷ []))
              (record { index = suc (i + length w); line = line })
            ≡ o)
      → simple_from string start size
          (suc (suc fuel))
          seen
          info
          words
          (record { index = i; line = line })
        ≡ o
  first_word w ws fuel line i seen info words o plain s fits enough rest =
      let (sw, (space, after)) = Spells-append start i w (32 ∷ render ws) s in
      let stop : is_valid_char (start (i + length w)) ≡ false = rw space space_invalid in
      let n = length-render w ws in
      simple_from_word (suc fuel) line i w seen info words plain sw stop (omega (arith, n))
        (omega (arith, n))
      ∙ simple_from_space fuel line (i + length w) info (words ++ (string w ∷ [])) space
          (omega (arith, n))
      ∙ rest after

  -- From the first byte of a word on.
  words_from :
      (ws : List Word) (w : Word) (fuel line i : ℕ) (seen : Bool) (info : Info)
      (words : List String)
      → IsPlainWord w
      → ArePlain ws
      → Spells start i (render (w ∷ ws))
      → i + length (render (w ∷ ws)) ≤ size
      → length (render (w ∷ ws)) < fuel
      → simple_from string start size fuel seen info words (record { index = i; line = line })
        ≡ parsed
            (simple_command info (words ++ map string (w ∷ ws)))
            (record { index = i + length (render (w ∷ ws)); line = suc line })
  words_from ws w zero line i seen info words plain plains s fits enough = absurd (omega arith)
  words_from ws w (suc zero) line i seen info words plain plains s fits enough =
      absurd (omega (arith, length-render w ws))
  words_from [] w (suc (suc zero)) line i seen info words plain plains s fits enough =
      absurd (omega (arith, length-render w [], plain.some_byte))
  words_from [] w (suc (suc (suc fuel))) line i seen info words plain plains s fits enough =
      let n = length-render w [] in
      let end : suc (suc (i + length w)) ≡ i + length (render (w ∷ [])) = omega (arith, n) in
      first_word w [] (suc fuel) line i seen info words _ plain s fits enough λ after. rw end at (
        simple_from-newline fuel line (suc (i + length w)) info (words ++ (string w ∷ [])) after.0
          (omega (arith, n)))
  words_from (v ∷ ws) w (suc (suc fuel)) line i seen info words plain (plain', plains) s fits
        enough =
      let n = length-render w (v ∷ ws) in
      let end : suc (i + length w) + length (render (v ∷ ws)) ≡ i + length (render (w ∷ v ∷ ws)) =
        omega (arith, n) in
      first_word w (v ∷ ws) fuel line i seen info words _ plain s fits enough λ after.
        rw (append_assoc words (string w ∷ []) (map string (v ∷ ws)), end) at
          (words_from ws v fuel line (suc (i + length w)) true info (words ++ (string w ∷ []))
            plain' plains after (omega (arith, n)) (omega (arith, n, plain.some_byte)))

  -- A line of words, each of fewer than 24 valid bytes and no keyword, with a space after each, is read as the
  -- simple command with just these words and no redirections; the parser stands at the start of the next
  -- line. The fuel is more than the bytes of the line.
  pub create_simple_command-render :
      (w : Word) (ws : List Word) (fuel line i : ℕ)
      → IsPlainWord w
      → ArePlain ws
      → Spells start i (render (w ∷ ws))
      → i + length (render (w ∷ ws)) ≤ size
      → length (render (w ∷ ws)) < fuel
      → create_simple_command string start size fuel (record { index = i; line = line })
        ≡ parsed
            (simple_command fresh (map string (w ∷ ws)))
            (record { index = i + length (render (w ∷ ws)); line = suc line })
  unfolding create_simple_command
  create_simple_command-render w ws fuel line i plain plains s fits enough =
      words_from ws w fuel line i false fresh [] plain plains s fits enough
