-- ===== src/Contract/Patterns.antt =====
-- The regular expressions of control-plane/internal/contract (decimal.go, proposal.go) as functions
-- on the code points of a text, and `ParseDecimal`, `ParseSignedDecimal`.
use Prim.Native.Char.{code}
use Prim.Native.String.{len}
use alpha_mint_x.Base.{
  ℕ, zero, suc, Bool, true, false, ◌&&◌, ◌||◌, not, String, Option, none, some, List, [], ◌∷◌, leb,
  ltb, ◌==◌, if◌then◌else◌,
}
use alpha_mint_x.Numbers.{Numbers}
use alpha_mint_x.Contract.Types.{Decimal}

abbrev pub codes : String → List ℕ
codes String.[] = []
codes (String.◌∷◌ c s) = code c ∷ codes s

abbrev pub is_digit : ℕ → Bool
is_digit c = leb b'0' c && leb c b'9'

abbrev is_hex : ℕ → Bool
is_hex c = is_digit c || (leb b'a' c && leb c b'f')

abbrev is_upper_or_digit : ℕ → Bool
is_upper_or_digit c = is_digit c || (leb b'A' c && leb c b'Z')

-- `[0-9]*$`.
pub all_digits : List ℕ → Bool
all_digits [] = true
all_digits (c ∷ cs) = is_digit c && all_digits cs

-- `(\.[0-9]+)?$`.
pub matches_fraction : List ℕ → Bool
unfolding all_digits
matches_fraction [] = true
matches_fraction (c ∷ []) = false
matches_fraction (c ∷ d ∷ cs) = c == b'.' && all_digits (d ∷ cs)

-- `[0-9]*(\.[0-9]+)?$`.
pub matches_digits : List ℕ → Bool
unfolding matches_fraction
matches_digits [] = true
matches_digits (c ∷ cs) =
    let more = matches_digits cs in if is_digit c then more else matches_fraction (c ∷ cs)

-- decimalPattern, `^(0|[1-9][0-9]*)(\.[0-9]+)?$`.
pub matches_decimal : List ℕ → Bool
unfolding matches_digits
matches_decimal [] = false
matches_decimal (c ∷ cs) =
    if c == b'0' then matches_fraction cs else is_digit c && matches_digits cs

-- signedDecimalPattern, the same behind an optional sign.
pub matches_signed_decimal : List ℕ → Bool
unfolding matches_decimal
matches_signed_decimal [] = false
matches_signed_decimal (c ∷ cs) = if c == b'-' then matches_decimal cs else matches_decimal (c ∷ cs)

-- `[0-9a-f]{k}` and then what `rest` matches.
pub matches_hex : ℕ → (List ℕ → Bool) → List ℕ → Bool
matches_hex zero rest cs = rest cs
matches_hex (suc k) rest [] = false
matches_hex (suc k) rest (c ∷ cs) = is_hex c && matches_hex k rest cs

abbrev matches_dash : (List ℕ → Bool) → List ℕ → Bool
matches_dash rest [] = false
matches_dash rest (c ∷ cs) = c == b'-' && rest cs

abbrev at_end : List ℕ → Bool
at_end [] = true
at_end (c ∷ cs) = false

-- uuidPattern: groups of 8, 4, 4, 4 and 12 lower-case hexadecimal digits.
unfoldable pub matches_uuid : List ℕ → Bool
unfolding matches_hex
matches_uuid = matches_hex 8 (
    matches_dash (
      matches_hex 4 (
        matches_dash
          (matches_hex 4 (matches_dash (matches_hex 4 (matches_dash (matches_hex 12 at_end))))))))

-- `[A-Z0-9]*$` with the number of characters from `least` to `most`, after `seen` of them.
pub matches_quote : ℕ → List ℕ → Bool
matches_quote seen [] = leb 2 seen && leb seen 10
matches_quote seen (c ∷ cs) = is_upper_or_digit c && matches_quote (suc seen) cs

-- symbolPattern, `^[A-Z0-9]{2,15}/[A-Z0-9]{2,10}$`, after `seen` characters of its first part.
unfoldable pub matches_symbol : ℕ → List ℕ → Bool
unfolding matches_quote
matches_symbol seen [] = false
matches_symbol seen (c ∷ cs) =
    let more = matches_symbol (suc seen) cs in
    if c == b'/'
    then leb 2 seen && leb seen 15 && matches_quote 0 cs
    else is_upper_or_digit c && more

module _ (n : Numbers) where
  open n use {of_text}

  abbrev read : String → Option (Decimal n)
  read s = elim (of_text s) [ none ↦ none | some d ↦ some (record { value = d; raw = s }) ]

  -- `ParseDecimal`; `none` is an error.
  unfoldable pub parse_decimal : String → Option (Decimal n)
  unfolding matches_decimal
  parse_decimal s = if ltb 34 (len s) || not (matches_decimal (codes s)) then none else read s

  -- `ParseSignedDecimal`.
  unfoldable pub parse_signed_decimal : String → Option (Decimal n)
  unfolding matches_signed_decimal
  parse_signed_decimal s =
      if ltb 35 (len s) || not (matches_signed_decimal (codes s)) then none else read s
