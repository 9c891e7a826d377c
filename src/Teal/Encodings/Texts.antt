-- ===== src/Teal/Encodings/Texts.antt =====
-- packages/runtime/src/lib/parsing.ts, `getEncoding`: which texts come out of it.
use Prim.Native.String.{String, [], ◌∷◌}
use algorand_builder.Base.{
  ◌≡◌, refl, ap, Bool, true, false, ◌&&◌, ◌||◌, List, [], ◌∷◌, Bool-cases, inl, inr, if◌then◌else◌,
}
use algorand_builder.Base.Equality.{string_eq}
use algorand_builder.Teal.Op.{Encoding}
use algorand_builder.Teal.Parsed.{ParseError, Parsed, parsed}
use algorand_builder.Teal.Query.{append_text}
use algorand_builder.Teal.Encodings.{
  starts_with, ends_with, slice_from, without_last, is_base64, is_base32, base64_text, base32_text,
  base64_or_base32, encoding_of_word, encoding_of_words, get_encoding,
}

-- The text between quotation marks.
abbrev pub quote : String → String
quote text = append_text "\"" (append_text text "\"")

ends-append : (text : String) → ends_with b'"' (append_text text "\"") ≡ true
unfolding ends_with append_text
ends-append [] = refl
ends-append (d ∷ []) = refl
ends-append (d ∷ e ∷ text) = ends-append (e ∷ text)

without-append : (text : String) → without_last (append_text text "\"") ≡ text
unfolding without_last append_text
without-append [] = refl
without-append (d ∷ []) = refl
without-append (d ∷ e ∷ text) = ap (λ t. d ∷ t) (without-append (e ∷ text))

-- A string literal is read back from between its quotation marks, whatever it holds.
pub get_encoding-quote :
    (text : String) → get_encoding (quote text ∷ []) ≡ parsed (text, Encoding.utf8)
unfolding get_encoding encoding_of_word append_text starts_with ends_with slice_from without_last
get_encoding-quote [] = refl
get_encoding-quote (c ∷ text) = rw (ends-append (c ∷ text), without-append (c ∷ text)) refl

-- A text that is to be decoded has the form of its encoding.
abbrev pub Checked : Parsed (String × Encoding) → Type 0
Checked (Parsed.parsed (text, Encoding.base64)) = is_base64 text ≡ true
Checked (Parsed.parsed (text, Encoding.base32)) = is_base32 text ≡ true
Checked _ = Unit

record Yields (p : Parsed (String × Encoding)) : Type 0 where
  checked : Checked p

base64-Yields : (text : String) → Yields (base64_text text)
unfolding base64_text
base64-Yields text = elim (Bool-cases (is_base64 text)) [
  | inl p ↦ record { checked = rw p p }
  | inr p ↦ record { checked = rw p tt }
]

base32-Yields : (text : String) → Yields (base32_text text)
unfolding base32_text
base32-Yields text = elim (Bool-cases (is_base32 text)) [
  | inl p ↦ record { checked = rw p p }
  | inr p ↦ record { checked = rw p tt }
]

Yields-if :
    (b : Bool) (p q : Parsed (String × Encoding))
    → Yields p
    → Yields q
    → Yields (if b then p else q)
Yields-if true p q h k = h
Yields-if false p q h k = k

none-Yields : (e : ParseError) → Yields (Parsed.refused e)
none-Yields e = record { checked = tt }

plain-Yields :
    (text : String) (e : Encoding)
    → Checked (Parsed.parsed (text, e))
    → Yields (Parsed.parsed (text, e))
plain-Yields text e h = record { checked = h }

word-Yields : (arg : String) → Yields (encoding_of_word arg)
unfolding encoding_of_word base64_or_base32
word-Yields arg =
    let closed = ends_with b')' arg in
    Yields-if (starts_with "\"" arg && ends_with b'"' arg) _ _ (plain-Yields _ Encoding.utf8 tt) (
      Yields-if (starts_with "0x" arg) _ _ (plain-Yields _ Encoding.hex tt) (
        Yields-if ((starts_with "base64(" arg || starts_with "b64(" arg) && closed) _ _
          (base64-Yields _)
          (Yields-if ((starts_with "base32(" arg || starts_with "b32(" arg) && closed) _ _
            (base32-Yields _) (none-Yields _))))

words-Yields : (name text : String) → Yields (encoding_of_words name text)
unfolding encoding_of_words
words-Yields name text =
    Yields-if _ _ _ (base64-Yields text) (Yields-if _ _ _ (base32-Yields text) (none-Yields _))

-- A byte constant whose encoding is base 64 or base 32 has the form of that encoding, in each of
-- the ways to write it.
pub get_encoding-Checked : (args : List String) → Checked (get_encoding args)
unfolding get_encoding encoding_of_words
get_encoding-Checked [] = tt
get_encoding-Checked (arg ∷ []) = (word-Yields arg).checked
get_encoding-Checked (name ∷ text ∷ []) = (words-Yields name text).checked
get_encoding-Checked (name ∷ text ∷ more ∷ args) = tt
