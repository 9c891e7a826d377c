-- ===== src/Teal/Parser/Words.antt =====
-- packages/runtime/src/parser/parser.ts: the words of a line that joins words by spaces.
use algorand_builder.Base.{
  ℕ, ◌≡◌, ◌≢◌, refl, ap, ◌∙◌, Bool, true, false, List, [], ◌∷◌, ◌++◌, Option, none, some, All,
  arith,
}
use algorand_builder.Teal.Parser.{Scan, is_base64, read, space, step, scan, at_start}

-- A character that means nothing but itself.
abbrev pub Plain : ℕ → Type 0
Plain c = (c ≢ b' ') × (c ≢ b'"') × (c ≢ b'/') × (c ≢ b'(') × (c ≢ b')')

-- A word of such characters.
abbrev pub IsWord : List ℕ → Type 0
IsWord [] = ⊥
IsWord (c ∷ w) = All Plain (c ∷ w)

-- Words with a space between each two.
abbrev pub join : List ℕ → List (List ℕ) → List ℕ
join w [] = w
join w (v ∷ ws) = w ++ b' ' ∷ join v ws

-- Outside a text.
state : List (List ℕ) → List ℕ → Option ℕ → Bool → Bool → Scan
state words current previous skipping in_base64 = record {
  words = words;
  current = current;
  previous = previous;
  skipping = skipping;
  in_string = false;
  in_base64 = in_base64;
}

read-plain :
    (c : ℕ) (line : List ℕ) (words : List (List ℕ)) (current : List ℕ) (p : Option ℕ) (k b : Bool)
    → Plain c
    → scan (c ∷ line) (state words current p k b)
      ≡ scan line (state words (current ++ c ∷ []) (some c) false b)
unfolding scan step read state
read-plain c line words current p k b h = ground arith

append_assoc : (xs ys zs : List ℕ) → (xs ++ ys) ++ zs ≡ xs ++ (ys ++ zs)
append_assoc [] ys zs = refl
append_assoc (x ∷ xs) ys zs = ap (λ l. x ∷ l) (append_assoc xs ys zs)

append_words :
    (xs : List (List ℕ)) (w : List ℕ) (ys : List (List ℕ)) → (xs ++ w ∷ []) ++ ys ≡ xs ++ w ∷ ys
append_words [] w ys = refl
append_words (x ∷ xs) w ys = ap (λ l. x ∷ l) (append_words xs w ys)

read-word :
    (c : ℕ) (w line : List ℕ) (words : List (List ℕ)) (current : List ℕ) (p : Option ℕ) (k b : Bool)
    → All Plain (c ∷ w)
    → (q : Option ℕ) × (scan ((c ∷ w) ++ line) (state words current p k b)
        ≡ scan line (state words (current ++ c ∷ w) q false b))
read-word c [] line words current p k b h = (some c, read-plain c line words current p k b h.0)
read-word c (d ∷ w) line words current p k b h =
    let (q, e) = read-word d w line words (current ++ c ∷ []) (some c) false b h.1 in
    (
      q,
      read-plain c (d ∷ w ++ line) words current p k b h.0
          ∙ rw (append_assoc current (c ∷ []) (d ∷ w)) at e,
    )

append_nil : (xs : List ℕ) → xs ++ [] ≡ xs
append_nil [] = refl
append_nil (x ∷ xs) = ap (λ l. x ∷ l) (append_nil xs)

-- The end of a line that has been read outside a text.
scan-end :
    (c : ℕ) (w : List ℕ) (words : List (List ℕ)) (q : Option ℕ) (b : Bool)
    → scan [] (state words (c ∷ w) q false b) ≡ words ++ (c ∷ w) ∷ []
unfolding scan state
scan-end c w words q b = refl

scan-space :
    (line current : List ℕ) (words : List (List ℕ)) (q : Option ℕ) (b : Bool)
    → scan (b' ' ∷ line) (state words current q false b)
      ≡ scan line (state (words ++ current ∷ []) [] (some b' ') true (is_base64 current))
unfolding scan step space state
scan-space line current words q b = refl

scan-join :
    (w : List ℕ) (ws words : List (List ℕ)) (p : Option ℕ) (k b : Bool)
    → All IsWord (w ∷ ws)
    → scan (join w ws) (state words [] p k b) ≡ words ++ w ∷ ws
scan-join [] ws words p k b h = absurd h.0
scan-join (c ∷ w) [] words p k b h =
    let (q, e) = read-word c w [] words [] p k b h.0 in
    rw (append_nil (c ∷ w)) at (e ∙ scan-end c w words q b)
scan-join (c ∷ w) (v ∷ ws) words p k b h =
    let (q, e) = read-word c w (b' ' ∷ join v ws) words [] p k b h.0 in
    e
    ∙ scan-space (join v ws) (c ∷ w) words q b
    ∙ scan-join v ws (words ++ (c ∷ w) ∷ []) (some b' ') true (is_base64 (c ∷ w)) h.1
    ∙ append_words words (c ∷ w) (v ∷ ws)

-- Words of plain characters (no space, quotation mark, slash or parenthesis) that are joined by
-- spaces are what the loop of wordsFromLine reads back.
pub scan-join_words :
    (w : List ℕ) (ws : List (List ℕ)) → All IsWord (w ∷ ws) → scan (join w ws) at_start ≡ w ∷ ws
unfolding state
scan-join_words w ws h = scan-join w ws [] none false false h
