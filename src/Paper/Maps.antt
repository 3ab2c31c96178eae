-- ===== src/Paper/Maps.antt =====
-- The laws of the maps of the paper OMS, and that a fill keeps to its own book.
use alpha_mint_x.Base.{
  ◌≡◌, refl, ◌&&◌, String, Option, none, some, List, [], ◌∷◌, ◌=ₛ◌, eq_iff, if◌then◌else◌, arith,
}
use alpha_mint_x.Numbers.{Numbers}
use alpha_mint_x.Paper.Types.{
  Side, Position, Book, Oms, Order, find_position, set_position, find_order, put_order,
}
use alpha_mint_x.Paper.Fills.{side_sign, fill_position, apply_fill, position_or_flat}

module _ (n : Numbers) where
  open n use {Amount, add, mul}

  pub find_position-set_position :
      (s sym t : String) (p : Position n) (l : List (Book n))
      → find_position n s sym (set_position n t p l)
        ≡ (if t =ₛ s && p.symbol =ₛ sym then some p else find_position n s sym l)
  unfolding find_position set_position
  find_position-set_position s sym t p [] = ground arith
  find_position-set_position s sym t p (b ∷ l) = ground (
    arith,
    eq_iff t s,
    eq_iff b.strategy_id t,
    eq_iff b.strategy_id s,
    eq_iff p.symbol sym,
    eq_iff b.position.symbol p.symbol,
    eq_iff b.position.symbol sym,
    find_position-set_position s sym t p l,
  )

  pub find_position-symbol :
      (s sym : String) (l : List (Book n)) {p : Position n}
      → find_position n s sym l ≡ some p
      → p.symbol ≡ sym
  unfolding find_position
  find_position-symbol s sym [] h = cc
  find_position-symbol s sym (b ∷ l) {p} h =
      ground (arith, eq_iff b.position.symbol sym, find_position-symbol s sym l {p = p})

  pub find_order-put_order :
      (k : String) (o : Order n) (l : List (Order n))
      → find_order n k (put_order n o l) ≡ (if o.id =ₛ k then some o else find_order n k l)
  unfolding find_order put_order
  find_order-put_order k o [] = refl
  find_order-put_order k o (p ∷ l) =
      ground (arith, eq_iff p.id o.id, eq_iff o.id k, eq_iff p.id k, find_order-put_order k o l)

  -- A fill moves the quantity by the signed size, and keeps the symbol.
  pub fill_position-qty :
      (side : Side) (qty price fee : Amount) (p : Position n)
      → ((fill_position n side qty price fee p).qty_base
          ≡ add p.qty_base (mul (side_sign n side) qty))
        × ((fill_position n side qty price fee p).symbol ≡ p.symbol)
  unfolding fill_position
  fill_position-qty side qty price fee p = ground arith

  or_flat-symbol :
      (s sym : String) (l : List (Book n))
      → (position_or_flat n sym (find_position n s sym l)).symbol ≡ sym
  or_flat-symbol s sym l = go (find_position n s sym l) refl
    where
      go :
          (o : Option (Position n))
          → find_position n s sym l ≡ o
          → (position_or_flat n sym o).symbol ≡ sym
      go none e = refl
      go (some p) e = find_position-symbol s sym l e

  -- A fill changes the book of its strategy and symbol, and no other.
  pub find_position-apply_fill :
      (s sym t sym' : String) (side : Side) (qty price fee : Amount) (o : Oms n)
      → find_position n t sym' (apply_fill n s sym side qty price fee o).positions ≡ (
          if s =ₛ t && sym =ₛ sym'
          then some (
              fill_position n side qty price fee
                (position_or_flat n sym (find_position n s sym o.positions)))
          else find_position n t sym' o.positions)
  unfolding apply_fill
  find_position-apply_fill s sym t sym' side qty price fee o = rw (
    find_position-set_position,
    (fill_position-qty side qty price fee
        (position_or_flat n sym (find_position n s sym o.positions))).1,
    or_flat-symbol s sym o.positions,
  )
