-- ===== src/Teal/Encodings.antt =====
-- packages/runtime/src/lib/parsing.ts: the encodings of byte constants.
pub mod Texts
use Prim.Native.String.{String, [], ◌∷◌}
use Prim.Native.Char.{Char, code}
use algorand_builder.Base.{
  ℕ, zero, suc, Bool, true, false, not, ◌&&◌, ◌||◌, List, [], ◌∷◌, leb, ◌==◌, if◌then◌else◌,
}
use algorand_builder.Base.Equality.{same, string_eq}
use algorand_builder.Teal.Op.{Encoding}
use algorand_builder.Teal.Parsed.{ParseError, Parsed, refuse_if}

abbrev pub is_char : ℕ → Char → Bool
is_char n c = code c == n

-- `text.startsWith(prefix)`
unfoldable pub starts_with : String → String → Bool
starts_with [] text = true
starts_with (p ∷ prefix) [] = false
starts_with (p ∷ prefix) (c ∷ text) = is_char (code p) c && starts_with prefix text

-- `text.endsWith(c)`, for one character
unfoldable pub ends_with : ℕ → String → Bool
ends_with n [] = false
ends_with n (c ∷ []) = is_char n c
ends_with n (c ∷ d ∷ text) = ends_with n (d ∷ text)

-- `text.slice(k)`
unfoldable pub slice_from : ℕ → String → String
slice_from zero text = text
slice_from (suc k) [] = []
slice_from (suc k) (c ∷ text) = slice_from k text

-- `text.slice(0, text.length - 1)`
unfoldable pub without_last : String → String
without_last [] = []
without_last (c ∷ []) = []
without_last (c ∷ d ∷ text) = c ∷ without_last (d ∷ text)

-- `[0-9a-zA-Z+/]`
abbrev pub in_base64 : Char → Bool
in_base64 c =
    (leb 48 (code c) && leb (code c) 57)
    || (leb 97 (code c) && leb (code c) 122)
    || (leb 65 (code c) && leb (code c) 90)
    || is_char b'+' c
    || is_char b'/' c

-- `[A-Z2-7]`
abbrev pub in_base32 : Char → Bool
in_base32 c = (leb 65 (code c) && leb (code c) 90) || (leb 50 (code c) && leb (code c) 55)

-- `reBase64.test(text)`: groups of four, the last of which may end in one or two `=`
unfoldable pub is_base64 : String → Bool
is_base64 [] = true
is_base64 (a ∷ b ∷ c ∷ d ∷ text) =
    let rest = is_base64 text in
    let whole = in_base64 c && in_base64 d && rest in
    let one = in_base64 c && is_char b'=' d && same text "" in
    let two = is_char b'=' c && is_char b'=' d && same text "" in
    in_base64 a && in_base64 b && (whole || one || two)
is_base64 _ = false

unfoldable pub only_equals : String → Bool
only_equals [] = true
only_equals (c ∷ text) = is_char b'=' c && only_equals text

-- after the first character
unfoldable pub base32_tail : String → Bool
base32_tail [] = true
base32_tail (c ∷ text) = (in_base32 c && base32_tail text) || only_equals (c ∷ text)

-- `reBase32.test(text)`
unfoldable pub is_base32 : String → Bool
is_base32 [] = false
is_base32 (c ∷ text) = in_base32 c && base32_tail text

-- `assertBase64(text)` and `assertBase32(text)`, before the text is returned
unfoldable pub base64_text : String → Parsed (String × Encoding)
base64_text text =
    refuse_if (not (is_base64 text)) ParseError.invalid_base64
      (Parsed.parsed (text, Encoding.base64))

unfoldable pub base32_text : String → Parsed (String × Encoding)
base32_text text =
    refuse_if (not (is_base32 text)) ParseError.invalid_base32
      (Parsed.parsed (text, Encoding.base32))

-- What stands between the parentheses, after a prefix of length `long` or `short`.
abbrev pub between : String → ℕ → ℕ → String → String
between prefix short long arg =
    without_last (slice_from (if starts_with prefix arg then short else long) arg)

-- `base64OrBase32`
unfoldable pub base64_or_base32 : String → Parsed (String × Encoding)
base64_or_base32 arg =
    let closed = ends_with b')' arg in
    let second =
      if (starts_with "base32(" arg || starts_with "b32(" arg) && closed
      then base32_text (between "b32(" 4 7 arg)
      else Parsed.refused ParseError.decode_error in
    if (starts_with "base64(" arg || starts_with "b64(" arg) && closed
    then base64_text (between "b64(" 4 7 arg)
    else second

-- `getEncoding`, of one word
unfoldable pub encoding_of_word : String → Parsed (String × Encoding)
encoding_of_word arg =
    let other =
      if starts_with "0x" arg
      then Parsed.parsed (slice_from 2 arg, Encoding.hex)
      else base64_or_base32 arg in
    if starts_with "\"" arg && ends_with b'"' arg
    then Parsed.parsed (without_last (slice_from 1 arg), Encoding.utf8)
    else other

-- `getEncoding`, of two words
unfoldable pub encoding_of_words : String → String → Parsed (String × Encoding)
encoding_of_words name text =
    let second =
      if same name "base32" || same name "b32"
      then base32_text text
      else Parsed.refused ParseError.unknown_decode_type in
    if same name "base64" || same name "b64" then base64_text text else second

-- `getEncoding`
unfoldable pub get_encoding : List String → Parsed (String × Encoding)
get_encoding (arg ∷ []) = encoding_of_word arg
get_encoding (name ∷ text ∷ []) = encoding_of_words name text
get_encoding _ = Parsed.refused ParseError.unknown_decode_type
