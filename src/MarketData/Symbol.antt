-- ===== src/MarketData/Symbol.antt =====
-- control-plane/internal/marketdata/symbol.go. A symbol is the list of its bytes; `ToUpper` maps the
-- letters of ASCII, and symbols have no others.
use alpha_mint_x.Base.{
  ℕ, ◌-◌, Bool, true, false, ◌&&◌, ◌||◌, ◌==◌, Option, none, some, List, [], ◌∷◌, ◌++◌, leb,
  if◌then◌else◌,
}

abbrev pub slash : ℕ
slash = 47

-- `strings.ToUpper`.
abbrev pub upper_byte : ℕ → ℕ
upper_byte c = if leb 97 c && leb c 122 then c - 32 else c

unfoldable pub to_upper : List ℕ → List ℕ
to_upper [] = []
to_upper (c ∷ cs) = upper_byte c ∷ to_upper cs

-- `strings.Cut(s, "/")`: what is before and after the first slash.
unfoldable pub cut : List ℕ → Option (List ℕ × List ℕ)
cut [] = none
cut (c ∷ cs) =
    let rest = cut cs in
    if c == slash then some ([], cs) else elim rest [ none ↦ none | some r ↦ some (c ∷ r.0, r.1) ]

unfoldable pub has_slash : List ℕ → Bool
has_slash [] = false
has_slash (c ∷ cs) = (c == slash) || has_slash cs

abbrev pub is_empty : List ℕ → Bool
is_empty [] = true
is_empty (c ∷ cs) = false

-- `ToBinance`.
abbrev joined : List ℕ × List ℕ → Option (List ℕ)
joined (base, quote) =
    if is_empty base || is_empty quote || has_slash quote
    then none
    else some (to_upper base ++ to_upper quote)

unfoldable pub to_binance : List ℕ → Option (List ℕ)
to_binance canonical = elim (cut canonical) [ none ↦ none | some r ↦ joined r ]

-- `binanceQuoteAssets`, in their order: FDUSD, USDT, USDC, TUSD, BUSD, BNB, BTC, ETH, DAI, EUR, TRY
-- and USD.
abbrev pub binance_quote_assets : List (List ℕ)
binance_quote_assets =
    (70 ∷ 68 ∷ 85 ∷ 83 ∷ 68 ∷ [])
    ∷ (85 ∷ 83 ∷ 68 ∷ 84 ∷ [])
    ∷ (85 ∷ 83 ∷ 68 ∷ 67 ∷ [])
    ∷ (84 ∷ 85 ∷ 83 ∷ 68 ∷ [])
    ∷ (66 ∷ 85 ∷ 83 ∷ 68 ∷ [])
    ∷ (66 ∷ 78 ∷ 66 ∷ [])
    ∷ (66 ∷ 84 ∷ 67 ∷ [])
    ∷ (69 ∷ 84 ∷ 72 ∷ [])
    ∷ (68 ∷ 65 ∷ 73 ∷ [])
    ∷ (69 ∷ 85 ∷ 82 ∷ [])
    ∷ (84 ∷ 82 ∷ 89 ∷ [])
    ∷ (85 ∷ 83 ∷ 68 ∷ [])
    ∷ []

abbrev pub same_bytes : List ℕ → List ℕ → Bool
same_bytes [] [] = true
same_bytes (c ∷ cs) (d ∷ ds) = (c == d) && same_bytes cs ds
same_bytes _ _ = false

-- `v[:len(v)-len(q)]` where `q` is a proper suffix of `v`: `len(v) > len(q)` and `HasSuffix`.
unfoldable pub before_suffix : List ℕ → List ℕ → Option (List ℕ)
before_suffix [] q = none
before_suffix (c ∷ cs) q =
    let rest = before_suffix cs q in
    if same_bytes cs q
    then some (c ∷ [])
    else elim rest [ none ↦ none | some base ↦ some (c ∷ base) ]

-- The loop of `FromBinance`: the first asset that fits.
unfoldable pub split_by : List (List ℕ) → List ℕ → Option (List ℕ)
split_by [] v = none
split_by (q ∷ qs) v =
    let rest = split_by qs v in
    elim (before_suffix v q) [ none ↦ rest | some base ↦ some (base ++ (slash ∷ q)) ]

-- `FromBinance`.
unfoldable pub from_binance : List ℕ → Option (List ℕ)
from_binance venue = split_by binance_quote_assets (to_upper venue)
