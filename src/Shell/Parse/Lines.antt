-- ===== src/Shell/Parse/Lines.antt =====
-- A line of words is a simple command for `get_command_type` of lab1/read-command.c.
use cs111fall.Prelude.{
  ℕ, zero, suc, ◌+◌, ◌-◌, ◌≤◌, ◌<◌, ◌≡◌, refl, sym, inl, inr, Bool, true, false, none, some, List,
  [], ◌∷◌, length, length-append, arith, ltb, leb, ◌==◌, Bool-cases, ne→==,
}
use cs111fall.Shell.Parse.Text.{Text, Word, parsed, is_valid_char, is_space, same_word}
use cs111fall.Shell.Parse.Kind.{
  simple_kind, is_among, keywords, misplaced, word_in, word_esac, word_if, word_while, word_until,
  head, after_char, has_char, has_pipe, bytes_at, past_spaces, past_blanks, token_length,
  read_next_token, read_next_token2, some_token, kind_of, get_command_type,
}
use cs111fall.Shell.Parse.Simple.{
  Spells, Spells-append, IsValid, IsPlainWord, ArePlain, render, valid_ne, valid_ordinary,
}

-- A byte that no word has does not stand in a valid word.
has_char-IsValid : (k : ℕ) (w : Word) → is_valid_char k ≡ false → IsValid w → has_char k w ≡ false
has_char-IsValid k [] f v = refl
has_char-IsValid k (c ∷ w) f (v, vs) =
    rw (ne→== k c (λ e. valid_ne c v k f (sym e)), has_char-IsValid k w f vs) refl

after_char-IsValid :
    (k : ℕ) (w : Word) → is_valid_char k ≡ false → IsValid w → after_char k w ≡ none
after_char-IsValid k [] f v = refl
after_char-IsValid k (c ∷ w) f (v, vs) =
    rw (ne→== c k (valid_ne c v k f), after_char-IsValid k w f vs) refl

has_pipe-IsValid : (w : Word) → IsValid w → has_pipe w ≡ false
unfolding has_pipe is_valid_char
has_pipe-IsValid w v = rw (after_char-IsValid 124 w refl v) refl

has_semicolon-IsValid : (w : Word) → IsValid w → has_char 59 w ≡ false
unfolding is_valid_char
has_semicolon-IsValid w v = has_char-IsValid 59 w refl v

module _ (start : Text) where
  bytes_at-Spells : (i : ℕ) (w : Word) → Spells start i w → bytes_at start (length w) i ≡ w
  bytes_at-Spells i [] s = refl
  bytes_at-Spells i (c ∷ w) (e, s) = rw (e, bytes_at-Spells (suc i) w s) refl

  token_length_lem :
      (n i : ℕ) (w : Word)
      → IsValid w
      → Spells start i w
      → start (i + length w) ≡ 32
      → length w < n
      → token_length start n i ≡ length w
  unfolding token_length is_valid_char
  token_length_lem zero i w v s stop enough = absurd (omega arith)
  token_length_lem (suc n) i [] v s stop enough =
      let here : start i ≡ 32 = ground (arith, stop) in rw here refl
  token_length_lem (suc n) i (c ∷ w) (v, vs) (e, s) stop enough =
      let sum : i + suc (length w) ≡ suc i + length w = omega arith in
      let rest = token_length_lem n (suc i) w vs s (rw sum at stop) (omega arith) in
      let (space, blank, comment, hash, end) = valid_ordinary c v in
      rw (e, blank, ne→== c 255 (valid_ne c v 255 refl), rest) refl

  pub first_byte :
      (i : ℕ) (w : Word) → IsPlainWord w → Spells start i w → is_valid_char (start i) ≡ true
  first_byte i [] p s = absurd (omega (arith, p.some_byte))
  first_byte i (c ∷ w) p s = rw s.0 p.valid.0

  pub past_spaces-valid : (n i : ℕ) → is_valid_char (start i) ≡ true → past_spaces start n i ≡ i
  past_spaces-valid zero i v = refl
  past_spaces-valid (suc n) i v = rw (valid_ordinary (start i) v).0 refl

  past_blanks-valid : (n i : ℕ) → is_valid_char (start i) ≡ true → past_blanks start n i ≡ i
  unfolding past_blanks
  past_blanks-valid zero i v = refl
  past_blanks-valid (suc n) i v = rw (valid_ordinary (start i) v).1 refl

  module _ (size : ℕ) where
    read_next_token_lem :
        (i : ℕ) (w : Word)
        → IsPlainWord w
        → Spells start i w
        → start (i + length w) ≡ 32
        → i + length w < size
        → read_next_token start size i ≡ some w
    unfolding read_next_token
    read_next_token_lem i w p s stop within =
        let inside : leb size i ≡ false = ground arith in
        rw
          (
            inside,
            past_blanks-valid (size - i) i (first_byte i w p s),
            token_length_lem (size - i) i w p.valid s stop (omega arith),
            bytes_at-Spells i w s,
          )
          refl

    -- The token at the first byte of a word, and the token after one space.
    read_next_token2_lem :
        (i tmp : ℕ) (w : Word)
        → past_spaces start (suc (size - i)) i ≡ tmp
        → IsPlainWord w
        → Spells start tmp w
        → start (tmp + length w) ≡ 32
        → tmp + length w < size
        → read_next_token2 start size i ≡ (some w, tmp + length w)
    unfolding read_next_token2
    read_next_token2_lem i tmp w at p s stop within =
        let not_end = (valid_ordinary (start tmp) (first_byte tmp w p s)).4 in
        let some_bytes : (length w == 0) ≡ false = ground (arith, p.some_byte) in
        rw
          (
            at,
            token_length_lem (size - tmp) tmp w p.valid s stop (omega arith),
            not_end,
            some_bytes,
            bytes_at-Spells tmp w s,
          )
          refl

-- The word is none of these.
abbrev NoneOf : List Word → Word → Type 0
NoneOf [] w = Unit {0}
NoneOf (v ∷ vs) w = (same_word w v ≡ false) × NoneOf vs w

is_among-NoneOf : (vs : List Word) (w : Word) → is_among vs w ≡ false → NoneOf vs w
is_among-NoneOf [] w h = tt
is_among-NoneOf (v ∷ vs) w h = elim (Bool-cases (same_word w v)) [
  | inl same ↦ absurd (true≢false (rw same at h))
  | inr other ↦ (other, is_among-NoneOf vs w (rw other at h))
]
  where
    true≢false : true ≡ false → ⊥
    true≢false e = absurd cc

-- What a word that is no keyword is not.
no_keyword_lem :
    (w : Word)
    → is_among keywords w ≡ false
    → (same_word w word_if ≡ false)
      × (same_word w word_while ≡ false)
      × (same_word w word_until ≡ false)
      × (is_among misplaced w ≡ false)
no_keyword_lem w h =
    let (e_if, (e_then, (e_else, (e_fi, (e_while, (e_until, (e_done, (e_do, u)))))))) =
      is_among-NoneOf keywords w h in
    (e_if, e_while, e_until, rw (e_do, e_done, e_else, e_fi, e_then) refl)

module _ (start : Text) (size : ℕ) where
  past_spaces-stop : (n i : ℕ) → is_space (start i) ≡ false → past_spaces start n i ≡ i
  past_spaces-stop zero i stop = refl
  past_spaces-stop (suc n) i stop = rw stop refl

  module _ (stops : List Word) (test : Word → Bool)
      (fails : (w : Word) → IsPlainWord w → test w ≡ false) where
    -- No token of a line of words passes, from the space before them on.
    some_token-gap :
        (ws : List Word) (n i : ℕ)
        → ArePlain ws
        → Spells start i (32 ∷ render ws)
        → i + length (32 ∷ render ws) ≤ size
        → some_token start n size stops test i ≡ false
    unfolding some_token
    some_token-gap ws zero i plain s fits = refl
    some_token-gap [] (suc n) i plain (space, (end, s)) fits =
        let stop : is_space (start (suc i)) ≡ false = rw end refl in
        let at : past_spaces start (suc (size - i)) i ≡ suc i =
          rw space (past_spaces-stop (size - i) (suc i) stop) in
        unfold read_next_token2 in rw (at, end) refl
    some_token-gap (w ∷ ws) (suc n) i (p, plain) (space, s) fits =
        let (sw, rest) = Spells-append start (suc i) w (32 ∷ render ws) s in
        let count = length-append w (32 ∷ render ws) in
        let stop = (valid_ordinary _ (first_byte start (suc i) w p sw)).0 in
        let at : past_spaces start (suc (size - i)) i ≡ suc i =
          rw space (past_spaces-stop (size - i) (suc i) stop) in
        let token =
          read_next_token2_lem start size i (suc i) w at p sw rest.0 (omega (arith, count)) in
        let others = some_token-gap ws n (suc i + length w) plain rest (omega (arith, count)) in
        elim (Bool-cases (is_among stops w)) [
          | inl ends ↦ rw (token, ends) refl
          | inr goes_on ↦ rw (token, goes_on, fails w p, others) refl
        ]

    -- And from the first byte of a word on.
    some_token-render :
        (w : Word) (ws : List Word) (n i : ℕ)
        → IsPlainWord w
        → ArePlain ws
        → Spells start i (render (w ∷ ws))
        → i + length (render (w ∷ ws)) ≤ size
        → some_token start n size stops test i ≡ false
    unfolding some_token
    some_token-render w ws zero i p plain s fits = refl
    some_token-render w ws (suc n) i p plain s fits =
        let (sw, rest) = Spells-append start i w (32 ∷ render ws) s in
        let count = length-append w (32 ∷ render ws) in
        let at = past_spaces-valid start (suc (size - i)) i (first_byte start i w p sw) in
        let token = read_next_token2_lem start size i i w at p sw rest.0 (omega (arith, count)) in
        let others = some_token-gap ws n (i + length w) plain rest (omega (arith, count)) in
        elim (Bool-cases (is_among stops w)) [
          | inl ends ↦ rw (token, ends) refl
          | inr goes_on ↦ rw (token, goes_on, fails w p, others) refl
        ]

  module _ (w : Word) (ws : List Word) (i : ℕ) (p : IsPlainWord w) (plain : ArePlain ws)
      (s : Spells start i (render (w ∷ ws))) (fits : i + length (render (w ∷ ws)) ≤ size) where
    head_lem : (k : ℕ) → is_valid_char k ≡ false → (head w == k) ≡ false
    head_lem k f = go w p.valid p.some_byte
      where
        go : (v : Word) → IsValid v → 0 < length v → (head v == k) ≡ false
        go [] v h = absurd (omega arith)
        go (c ∷ rest) v h = ne→== c k (valid_ne c v.0 k f)

    kind_of-render : kind_of start size w i ≡ some simple_kind
    unfolding kind_of is_valid_char
    kind_of-render =
        let (e_if, e_while, e_until, e_misplaced) = no_keyword_lem w p.no_keyword in
        rw
          (
            head_lem 40 refl,
            e_if,
            e_while,
            e_until,
            e_misplaced,
            head_lem 41 refl,
            has_pipe-IsValid w p.valid,
            some_token-render keywords has_pipe (λ v q. has_pipe-IsValid v q.valid) w ws size i p
                plain s fits,
            has_semicolon-IsValid w p.valid,
            some_token-render (word_in ∷ word_esac ∷ keywords) (has_char 59)
                (λ v q. has_semicolon-IsValid v q.valid) w ws size i p plain s fits,
          )
          refl

    -- The kind of the line, and the place is as it was.
    pub get_command_type-render :
        (fuel line : ℕ)
        → get_command_type start (suc fuel) size (record { index = i; line = line })
          ≡ parsed simple_kind (record { index = i; line = line })
    unfolding get_command_type
    get_command_type-render fuel line =
        let (sw, rest) = Spells-append start i w (32 ∷ render ws) s in
        let count = length-append w (32 ∷ render ws) in
        let v = first_byte start i w p sw in
        let (space, blank, comment, hash, end) = valid_ordinary (start i) v in
        let inside : ltb i size ≡ true = ground (arith, count) in
        rw
          (
            inside,
            past_spaces-valid start (size - i) i v,
            end,
            v,
            read_next_token_lem start size i w p sw rest.0 (omega (arith, count)),
            kind_of-render,
          )
          refl
