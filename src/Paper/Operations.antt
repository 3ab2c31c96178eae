-- ===== src/Paper/Operations.antt =====
-- The operations of the paper OMS (control-plane/internal/oms/paper) as one type, and what holds
-- over every sequence of them.
use alpha_mint_x.Base.{ℕ, Bool, String, List, [], ◌∷◌, arith, Result, ok, err}
use alpha_mint_x.Base.Int.{ℤ}
use alpha_mint_x.Numbers.{Numbers}
use alpha_mint_x.Paper.Types.{OmsError, Order, Position, Oms, FillModel}
use alpha_mint_x.Paper.Booking.{cancel_open_entries, kill, restore_kill_epoch, flatten}
use alpha_mint_x.Paper.Orders.{EntryRequest, submit_entry, fill_limit_entry}
use alpha_mint_x.Paper.Ticks.{process_tick, restore_order, restore_position}
use alpha_mint_x.Paper.Orderly.{
  AllPriced, put-AllPriced, cancel_open_entries-priced, kill-priced, flatten-priced,
}
use alpha_mint_x.Paper.Entries.{fill_limit_entry-priced, submit_entry-priced}
use alpha_mint_x.Paper.Sweeps.{process_tick-Priced}

module _ (n : Numbers) (new_id : ℕ → String) (place : Order n → Bool) where
  open n use {Amount}

  pub data Operation : Type 0 where
    submit : EntryRequest n new_id place → Operation
    fill_limit : String → Operation
    tick : List (String × Amount) → Operation
    close : String → String → Amount → Operation
    kill_strategy : String → ℤ → Operation
    cancel_entries : String → Operation
    load_order : Order n → Operation
    load_position : String → Position n → Operation
    load_epoch : String → ℤ → Operation

  abbrev loaded : Result OmsError (Oms n) → Oms n → Oms n
  loaded (ok s') s = s'
  loaded (err e) s = s

  -- The state that an operation leaves.
  unfoldable pub perform : Operation → Oms n → Oms n
  perform (submit req) s = (submit_entry n new_id place req s).0
  perform (fill_limit id) s = (fill_limit_entry n new_id place id s).0
  perform (tick marks) s = (process_tick n new_id place marks s).oms
  perform (close t sym mark) s = (flatten n new_id place t sym mark s).0
  perform (kill_strategy t e) s = kill n new_id place t e s
  perform (cancel_entries t) s = cancel_open_entries n new_id place t s
  perform (load_order o) s = loaded (restore_order n new_id place o s) s
  perform (load_position t p) s = restore_position n new_id place t p s
  perform (load_epoch t e) s = restore_kill_epoch n new_id place t e s

  unfoldable pub perform_all : List Operation → Oms n → Oms n
  perform_all [] s = s
  perform_all (x ∷ xs) s = perform_all xs (perform x s)

  -- `New`, with its parsed fill model.
  unfoldable pub new : FillModel n → Oms n
  new fill = record { kill_epochs = []; fill = fill; orders = []; positions = []; next = 0 }

  perform-priced :
      (x : Operation) (s : Oms n)
      → AllPriced n new_id place s.orders
      → AllPriced n new_id place (perform x s).orders
  unfolding perform restore_order restore_position restore_kill_epoch
  perform-priced (submit req) s a = submit_entry-priced n new_id place req s a
  perform-priced (fill_limit id) s a = fill_limit_entry-priced n new_id place id s a
  perform-priced (tick marks) s a = process_tick-Priced n new_id place marks s a
  perform-priced (close t sym mark) s a = flatten-priced n new_id place t sym mark s a
  perform-priced (kill_strategy t e) s a = kill-priced n new_id place t e s a
  perform-priced (cancel_entries t) s a = cancel_open_entries-priced n new_id place t s a
  perform-priced (load_order o) s a = ground (arith, put-AllPriced n new_id place o s.orders)
  perform-priced (load_position t p) s a = a
  perform-priced (load_epoch t e) s a = ground arith

  all-priced :
      (xs : List Operation) (s : Oms n)
      → AllPriced n new_id place s.orders
      → AllPriced n new_id place (perform_all xs s).orders
  unfolding perform_all
  all-priced [] s a = a
  all-priced (x ∷ xs) s a = all-priced xs (perform x s) (perform-priced x s a)

  -- Whatever operations are performed on a new OMS, in whatever order, every filled order among its
  -- orders has a positive fill price.
  pub fills_priced :
      (fill : FillModel n) (xs : List Operation)
      → AllPriced n new_id place (perform_all xs (new fill)).orders
  unfolding new
  fills_priced fill xs = all-priced xs (new fill) tt
