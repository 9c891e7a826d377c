-- ===== src/Teal/Parser.antt =====
-- packages/runtime/src/parser/parser.ts, `wordsFromLine`: the words of a line. A line is the list of
-- its character codes. The position `i` of the loop is the head of what is left, and the text from
-- `start` up to it is the word that is being read.
pub mod Words
use algorand_builder.Base.{
  ℕ, ◌+◌, Bool, true, false, not, ◌&&◌, ◌||◌, List, [], ◌∷◌, ◌++◌, Option, none, some, ◌==◌, ltb,
  leb, if◌then◌else◌,
}

-- The variables of the loop.
pub record Scan : Type 0 where
  pub words : List (List ℕ)
  -- `line.substr(start, i - start)`
  pub current : List ℕ
  -- `line[i - 1]`
  pub previous : Option ℕ
  -- the inner loop runs, which passes over further spaces
  pub skipping : Bool
  pub in_string : Bool
  pub in_base64 : Bool

-- One character is read, or a comment ends the line.
pub data Step : Type 0 where
  stop : List (List ℕ) → Step
  next : Scan → Step

abbrev pub equal_text : List ℕ → List ℕ → Bool
equal_text [] [] = true
equal_text [] (d ∷ t) = false
equal_text (c ∷ s) [] = false
equal_text (c ∷ s) (d ∷ t) = c == d && equal_text s t

-- `value === "base64" || value === "b64"`
unfoldable pub is_base64 : List ℕ → Bool
is_base64 value =
    equal_text value (b'b' ∷ b'a' ∷ b's' ∷ b'e' ∷ b'6' ∷ b'4' ∷ [])
    || equal_text value (b'b' ∷ b'6' ∷ b'4' ∷ [])

abbrev pub is_char : ℕ → Option ℕ → Bool
is_char c none = false
is_char c (some d) = c == d

-- `(i === 0) || (i > 0 && line[i - 1] === ' ')`
abbrev pub at_word_start : Option ℕ → Bool
at_word_start none = true
at_word_start (some c) = c == b' '

-- The words, with the word that is being read unless it is empty.
abbrev pub with_current : List (List ℕ) → List ℕ → List (List ℕ)
with_current words [] = words
with_current words (c ∷ current) = words ++ (c ∷ current) ∷ []

-- A quotation mark opens a text at the start of a word, and closes it unless it is escaped.
abbrev pub quoted : Scan → Bool
quoted s = if s.in_string then is_char b'\\' s.previous else at_word_start s.previous

-- The `switch`, but for the comment.
unfoldable pub read : ℕ → Scan → Scan
read c s =
    let in_string = if c == b'"' then quoted s else s.in_string in
    let opened = if c == b'(' then is_base64 s.current || s.in_base64 else s.in_base64 in
    record {
      words = s.words;
      current = s.current ++ c ∷ [];
      previous = some c;
      skipping = false;
      in_string = in_string;
      in_base64 = if c == b')' then false else opened;
    }

-- A space ends a word outside a text.
unfoldable pub space : Scan → Scan
space s =
    let kept = record s { current = s.current ++ b' ' ∷ []; previous = some b' ' } in
    let passed = record s { previous = some b' ' } in
    let ended : Scan = record {
      words = s.words ++ s.current ∷ [];
      current = [];
      previous = some b' ';
      skipping = true;
      in_string = false;
      in_base64 = is_base64 s.current;
    } in
    if s.in_string then kept else if s.skipping then passed else ended

-- One round of the loop, with the character after this one.
unfoldable pub step : ℕ → Option ℕ → Scan → Step
step c following s =
    let comment = c == b'/' && is_char b'/' following && not s.in_base64 && not s.in_string in
    let read_on =
      if comment then Step.stop (with_current s.words s.current) else Step.next (read c s) in
    if c == b' ' then Step.next (space s) else read_on

abbrev pub first : List ℕ → Option ℕ
first [] = none
first (c ∷ line) = some c

-- `while (i < line.length) { … }`, and what follows it
unfoldable pub scan : List ℕ → Scan → List (List ℕ)
scan [] s = with_current s.words s.current
scan (c ∷ line) s = elim (step c (first line) s) [ stop words ↦ words | next t ↦ scan line t ]

abbrev pub at_start : Scan
at_start = record {
  words = [];
  current = [];
  previous = none;
  skipping = false;
  in_string = false;
  in_base64 = false;
}

-- White space of JavaScript's `trim`.
abbrev pub is_white : ℕ → Bool
is_white c =
    (leb 9 c && leb c 13)
    || c == 32
    || c == 160
    || c == 5760
    || (leb 8192 c && leb c 8202)
    || c == 8232
    || c == 8233
    || c == 8239
    || c == 8287
    || c == 12288
    || c == 65279

abbrev pub trim_start : List ℕ → List ℕ
trim_start [] = []
trim_start (c ∷ line) = let rest = trim_start line in if is_white c then rest else c ∷ line

abbrev pub trim_end : List ℕ → List ℕ
trim_end [] = []
trim_end (c ∷ line) = ended c (trim_end line)
  where
    ended : ℕ → List ℕ → List ℕ
    ended c [] = if is_white c then [] else c ∷ []
    ended c (d ∷ rest) = c ∷ d ∷ rest

unfoldable pub words_from_line : List ℕ → List (List ℕ)
words_from_line line = scan (trim_start (trim_end line)) at_start
