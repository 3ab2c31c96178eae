-- ===== src/MarketData/RoundTrip.antt =====
-- A venue's symbol, split into base and quote, is joined again to what it was.
use alpha_mint_x.Base.{
  ℕ, ◌≡◌, refl, ◌∙◌, true, false, ◌||◌, some, List, [], ◌∷◌, ◌++◌, arith, Option-cases, inl, inr,
  All,
}
use alpha_mint_x.MarketData.Symbol.{
  slash, to_upper, cut, has_slash, is_empty, to_binance, binance_quote_assets, same_bytes,
  before_suffix, split_by, from_binance,
}

to_upper_idem : (v : List ℕ) → to_upper (to_upper v) ≡ to_upper v
unfolding to_upper
to_upper_idem [] = refl
to_upper_idem (c ∷ cs) = ground (arith, to_upper_idem cs)

to_upper-append : (v w : List ℕ) → to_upper (v ++ w) ≡ to_upper v ++ to_upper w
unfolding to_upper
to_upper-append [] w = refl
to_upper-append (c ∷ cs) w = ground (arith, to_upper-append cs w)

has_slash-to_upper : (v : List ℕ) → has_slash (to_upper v) ≡ has_slash v
unfolding to_upper has_slash
has_slash-to_upper [] = refl
has_slash-to_upper (c ∷ cs) = ground (arith, has_slash-to_upper cs)

has_slash-append : (v w : List ℕ) → has_slash (v ++ w) ≡ has_slash v || has_slash w
unfolding has_slash
has_slash-append [] w = refl
has_slash-append (c ∷ cs) w = ground (arith, has_slash-append cs w)

same_bytes_eq : (v w : List ℕ) → same_bytes v w ≡ true → v ≡ w
same_bytes_eq [] [] h = refl
same_bytes_eq [] (d ∷ ds) h = ground arith
same_bytes_eq (c ∷ cs) [] h = ground arith
same_bytes_eq (c ∷ cs) (d ∷ ds) h = ground (arith, same_bytes_eq cs ds)

before_suffix-append :
    (v q base : List ℕ) → before_suffix v q ≡ some base → (v ≡ base ++ q) × (is_empty base ≡ false)
unfolding before_suffix
before_suffix-append [] q base h = ground arith
before_suffix-append (c ∷ cs) q base h = elim (Option-cases (before_suffix cs q)) [
  | inl e ↦ ground (arith, same_bytes_eq cs q)
  | inr (b, e) ↦ ground (arith, same_bytes_eq cs q, before_suffix-append cs q b e)
]

cut-append : (base q : List ℕ) → has_slash base ≡ false → cut (base ++ (slash ∷ q)) ≡ some (base, q)
unfolding cut has_slash
cut-append [] q h = refl
cut-append (c ∷ cs) q h = ground (arith, cut-append cs q)

-- A quote asset of the list: not empty.
abbrev IsAsset : List ℕ → Type 0
IsAsset q = is_empty q ≡ false

to_binance-split :
    (base q v : List ℕ)
    → IsAsset q
    → is_empty base ≡ false
    → v ≡ base ++ q
    → to_upper v ≡ v
    → has_slash v ≡ false
    → to_binance (base ++ (slash ∷ q)) ≡ some v
unfolding to_binance
to_binance-split base q v a b e u s =
    ground (arith, cut-append base q, has_slash-append base q, to_upper-append base q)

to_binance-split_by :
    (qs : List (List ℕ)) (v canonical : List ℕ)
    → All IsAsset qs
    → to_upper v ≡ v
    → has_slash v ≡ false
    → split_by qs v ≡ some canonical
    → to_binance canonical ≡ some v
unfolding split_by
to_binance-split_by [] v canonical a u s h = ground arith
to_binance-split_by (q ∷ qs) v canonical a u s h = elim (Option-cases (before_suffix v q)) [
  | inl e ↦ to_binance-split_by qs v canonical a.1 u s (ground arith)
  | inr (base, e) ↦
      let (p, b) = before_suffix-append v q base e in
      ground (arith, to_binance-split base q v a.0 b p u s)
]

-- A venue's symbol without a slash that is split into base and quote is joined to the same symbol
-- again, in upper case.
pub to_binance-from_binance :
    (venue canonical : List ℕ)
    → has_slash venue ≡ false
    → from_binance venue ≡ some canonical
    → to_binance canonical ≡ some (to_upper venue)
unfolding from_binance
to_binance-from_binance venue canonical s h =
    to_binance-split_by binance_quote_assets (to_upper venue) canonical (ground arith)
      (to_upper_idem venue) (has_slash-to_upper venue ∙ s) h
