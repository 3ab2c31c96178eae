-- ===== src/Paper/Kills.antt =====
-- What a kill does to the orders, and that it fences off submissions that were gated before it.
use mathlib.Core.Option
use alpha_mint_x.Base.{
  ℕ, ◌≡◌, refl, Bool, true, String, List, [], ◌∷◌, ◌=ₛ◌, eq_iff, if◌then◌else◌, arith, All,
}
use alpha_mint_x.Base.Int.{ℤ, ltb_ℤ, ◌≤ℤ◌}
use alpha_mint_x.Numbers.{Numbers}
use alpha_mint_x.Paper.Types.{Class, Status, OmsError, Order, Oms, epoch_of, set_epoch, find_order}
use alpha_mint_x.Paper.Booking.{refused, sweep, cancel_if, cancels_entry, kill, cancel_open_entries}
use alpha_mint_x.Paper.Orders.{EntryRequest, submit_entry}

module _ (n : Numbers) (new_id : ℕ → String) (place : Order n → Bool) where
  epoch_of-set_epoch :
      (s t : String) (e : ℤ) (m : List (String × ℤ))
      → epoch_of n t (set_epoch n s e m) ≡ (if s =ₛ t then e else epoch_of n t m)
  unfolding epoch_of set_epoch
  epoch_of-set_epoch s t e [] = refl
  epoch_of-set_epoch s t e ((j, d) ∷ m) =
      ground (arith, eq_iff s t, eq_iff j s, eq_iff j t, epoch_of-set_epoch s t e m)

  find_order-sweep :
      (test : Order n → Bool) (k : String) (l : List (Order n))
      → find_order n k (sweep n new_id place test l)
        ≡ Option.map (cancel_if n new_id place test) (find_order n k l)
  unfolding find_order sweep
  find_order-sweep test k [] = refl
  find_order-sweep test k (o ∷ l) = ground (arith, find_order-sweep test k l)

  -- An order that a kill of `s` has to cancel.
  abbrev pub IsResting : String → Order n → Type 0
  IsResting s o =
      (o.strategy_id ≡ s) × (o.order_class ≡ Class.entry) × (o.status ≡ Status.open_status)

  none-IsResting :
      (s : String) (l : List (Order n))
      → All (λ o. ¬ (IsResting s o)) (sweep n new_id place (cancels_entry n new_id place s) l)
  unfolding sweep
  none-IsResting s [] = tt
  none-IsResting s (o ∷ l) = (ground (arith, eq_iff o.strategy_id s), none-IsResting s l)

  -- A kill of a strategy leaves none of its entry orders resting, raises its epoch to at least the
  -- one given and no other's, changes no position, and of the orders changes only those, by
  -- canceling them: a protective order stays as it is.
  kill_lem :
      (s : String) (e : ℤ) (o : Oms n) (t id : String)
      → let k = kill n new_id place s e o in
        All (λ x. ¬ (IsResting s x)) k.orders
        × (e ≤ℤ epoch_of n s k.kill_epochs)
        × (epoch_of n t k.kill_epochs
            ≡ (if s =ₛ t then epoch_of n s k.kill_epochs else epoch_of n t o.kill_epochs))
        × (k.positions ≡ o.positions)
        × (find_order n id k.orders
            ≡ Option.map
                (cancel_if n new_id place (cancels_entry n new_id place s))
                (find_order n id o.orders))
  unfolding kill cancel_open_entries
  kill_lem s e o t id = (
    ground (arith, none-IsResting s o.orders),
    ground (arith, epoch_of-set_epoch s s e o.kill_epochs, eq_iff s s),
    ground (
      arith,
      epoch_of-set_epoch s s e o.kill_epochs,
      epoch_of-set_epoch s t e o.kill_epochs,
      eq_iff s s,
      eq_iff s t,
    ),
    ground arith,
    ground (arith, find_order-sweep (cancels_entry n new_id place s) id o.orders),
  )

  -- After a kill, a submission that carries an epoch from before it is refused and changes nothing.
  kill_fences :
      (e : ℤ) (o : Oms n) (req : EntryRequest n new_id place)
      → ltb_ℤ req.kill_epoch e ≡ true
      → let k = kill n new_id place req.strategy_id e o in
        submit_entry n new_id place req k ≡ (k, refused n new_id place OmsError.kill_epoch_stale)
  unfolding submit_entry
  kill_fences e o req h = ground (arith, (kill_lem req.strategy_id e o req.strategy_id "").1)
