-- ===== src/Companion/Line/Quoting.antt =====
-- satellite.go: quoted values and the tokenizer.
use mathlib.Core.List.{append_assoc, append-nil}
use cuebooth.Prelude.{
  ℕ, ◌+◌, ◌/◌, ◌%◌, leb, ltb, Option, none, some, ◌≡◌, refl, ap, ◌∙◌, Bool, true, false, not, ◌&&◌,
  ◌||◌, [], ◌∷◌, ◌++◌, ◌==◌, if◌then◌else◌, Bytes, arith, inl, inr, Bool-cases,
}
use cuebooth.Companion.Line.{flush, tokenize_from, plain_byte}

-- A printable byte of ASCII.
abbrev pub is_printable : ℕ → Bool
is_printable c = leb 32 c && ltb c 127

abbrev hex_digit : ℕ → ℕ
hex_digit n = if ltb n 10 then 48 + n else 87 + n

-- The letter that names a control byte: \a \b \t \n \v \f \r.
abbrev control_letter : ℕ → Option ℕ
control_letter c =
    if c == 7
    then some 97
    else if c == 8
    then some 98
    else if c == 9
    then some 116
    else if c == 10
    then some 110
    else if c == 11
    then some 118
    else if c == 12
    then some 102
    else if c == 13
    then some 114
    else none

abbrev control_escape : ℕ → Option ℕ → Bytes
control_escape c none = 92 ∷ 120 ∷ hex_digit (c / 16) ∷ hex_digit (c % 16) ∷ []
control_escape c (some letter) = 92 ∷ letter ∷ []

-- One byte in Go's %q. A byte from 128 on is a part of a printable character, which stays.
unfoldable pub escape_byte : ℕ → Bytes
escape_byte c =
    if c == 34 || c == 92
    then 92 ∷ c ∷ []
    else if is_printable c || leb 128 c
    then c ∷ []
    else control_escape c (control_letter c)

unfoldable pub escape : Bytes → Bytes
escape [] = []
escape (c ∷ s) = escape_byte c ++ escape s

abbrev pub AllPrintable : Bytes → Type 0
AllPrintable [] = Unit {0}
AllPrintable (c ∷ s) = (is_printable c ≡ true) × AllPrintable s

abbrev pub all_printable : Bytes → Bool
all_printable [] = true
all_printable (c ∷ s) = is_printable c && all_printable s

pub all_printable_lem : (s : Bytes) → all_printable s ≡ true → AllPrintable s
all_printable_lem [] h = tt
all_printable_lem (c ∷ s) h = (ground arith, all_printable_lem s (ground arith))

-- %q
unfoldable pub quote : Bytes → Bytes
unfolding escape
quote s = 34 ∷ (escape s ++ 34 ∷ [])

-- Bytes that the tokenizer takes as they are outside quotes.
abbrev pub is_plain : ℕ → Bool
is_plain c = not (c == 34 || c == 92 || c == 32)

abbrev pub AllPlain : Bytes → Type 0
AllPlain [] = Unit {0}
AllPlain (c ∷ s) = (is_plain c ≡ true) × AllPlain s

-- A byte that is no backslash, with its successor in place.
tokenize_byte :
    (b : Bytes) (quoted : Bool) (c : ℕ) (s : Bytes)
    → (c == 92) ≡ false
    → tokenize_from b quoted (c ∷ s)
      ≡ (plain_byte b quoted c).2
        ++ tokenize_from (plain_byte b quoted c).0 (plain_byte b quoted c).1 s
unfolding tokenize_from
tokenize_byte b quoted c [] h = refl
tokenize_byte b quoted c (d ∷ s) h = rw h

tokenize_escaped :
    (b : Bytes) (quoted : Bool) (d : ℕ) (s : Bytes)
    → tokenize_from b quoted (92 ∷ d ∷ s) ≡ tokenize_from (b ++ d ∷ []) quoted s
unfolding tokenize_from
tokenize_escaped b quoted d s = refl

plain_outside :
    (b : Bytes) (c : ℕ) → is_plain c ≡ true → plain_byte b false c ≡ (b ++ c ∷ [], false, [])
unfolding plain_byte
plain_outside b c h = ground arith

plain_inside :
    (b : Bytes) (c : ℕ) → (c == 34) ≡ false → plain_byte b true c ≡ (b ++ c ∷ [], true, [])
unfolding plain_byte
plain_inside b c h = ground arith

-- A plain byte joins the token, and a quote enters or leaves a run.
tokenize_outside :
    (b : Bytes) (c : ℕ) (s : Bytes)
    → is_plain c ≡ true
    → tokenize_from b false (c ∷ s) ≡ tokenize_from (b ++ c ∷ []) false s
tokenize_outside b c s h = rw (tokenize_byte b false c s (ground arith), plain_outside b c h)

tokenize_inside :
    (b : Bytes) (c : ℕ) (s : Bytes)
    → (c == 34) ≡ false
    → (c == 92) ≡ false
    → tokenize_from b true (c ∷ s) ≡ tokenize_from (b ++ c ∷ []) true s
tokenize_inside b c s h k = rw (tokenize_byte b true c s k, plain_inside b c h)

tokenize_quote_mark :
    (b : Bytes) (quoted : Bool) (s : Bytes)
    → tokenize_from b quoted (34 ∷ s) ≡ tokenize_from b (not quoted) s
tokenize_quote_mark b quoted s = tokenize_byte b quoted 34 s refl ∙ (unfold plain_byte in refl)

-- The byte that ends a token outside quotes.
pub tokenize_space :
    (b s : Bytes) → tokenize_from b false (32 ∷ s) ≡ flush b ++ tokenize_from [] false s
tokenize_space b s = tokenize_byte b false 32 s refl ∙ (unfold plain_byte in refl)

pub tokenize-plain :
    (b : Bytes) (s rest : Bytes)
    → AllPlain s
    → tokenize_from b false (s ++ rest) ≡ tokenize_from (b ++ s) false rest
tokenize-plain b [] rest p = rw append-nil
tokenize-plain b (c ∷ s) rest p =
    tokenize_outside b c (s ++ rest) p.0
    ∙ tokenize-plain (b ++ c ∷ []) s rest p.1
    ∙ ap (λ t. tokenize_from t false rest) (append_assoc b (c ∷ []) s)

tokenize-escape :
    (b s rest : Bytes)
    → AllPrintable s
    → tokenize_from b true (escape s ++ 34 ∷ rest) ≡ tokenize_from (b ++ s) false rest
unfolding escape escape_byte
tokenize-escape b [] rest p = tokenize_quote_mark b true rest ∙ rw append-nil
tokenize-escape b (c ∷ s) rest p =
    let more =
      tokenize-escape (b ++ c ∷ []) s rest p.1
      ∙ ap (λ t. tokenize_from t false rest) (append_assoc b (c ∷ []) s) in
    elim (Bool-cases (c == 34 || c == 92)) [
      | inl special ↦ rw special (tokenize_escaped b true c (escape s ++ 34 ∷ rest) ∙ more)
      | inr plain ↦
          rw (plain, p.0)
            (tokenize_inside b c (escape s ++ 34 ∷ rest) (ground arith) (ground arith) ∙ more)
    ]

-- A quoted value is one run of the token that it stands in.
pub tokenize-quote :
    (b s rest : Bytes)
    → AllPrintable s
    → tokenize_from b false (quote s ++ rest) ≡ tokenize_from (b ++ s) false rest
unfolding quote
tokenize-quote b s rest p =
    tokenize_quote_mark b false (escape s ++ 34 ∷ [] ++ rest)
    ∙ rw append_assoc (tokenize-escape b s rest p)

abbrev pub all_plain : Bytes → Bool
all_plain [] = true
all_plain (c ∷ s) = is_plain c && all_plain s

pub all_plain_lem : (s : Bytes) → all_plain s ≡ true → AllPlain s
all_plain_lem [] h = tt
all_plain_lem (c ∷ s) h = (ground arith, all_plain_lem s (ground arith))

-- A word that a space ends is a token.
pub tokenize-word :
    (b w rest : Bytes)
    → AllPlain w
    → tokenize_from b false (w ++ 32 ∷ rest) ≡ flush (b ++ w) ++ tokenize_from [] false rest
tokenize-word b w rest p = tokenize-plain b w (32 ∷ rest) p ∙ tokenize_space (b ++ w) rest
