-- ===== src/Store/Stamps.antt =====
-- What a later read of the kills says of an earlier one: the order of the stamp of an epoch, the
-- check for an active kill and the check of the stamp before a send.
use alpha_mint_x.Base.{◌≤◌, ◌≡◌, refl, ap, String, false, Option, none, some, arith}
use alpha_mint_x.Store.Types.{ClearScope, Tables, tenant_of}
use alpha_mint_x.Store.Kills.{global_max_kill_epoch}
use alpha_mint_x.Store.Clears.{active_kill, scope_active}
use alpha_mint_x.Store.Epochs.{scope_active_lem, active_kill_lem, tenant_active}
use alpha_mint_x.Store.Histories.{Reach}
use alpha_mint_x.Store.Later.{Reaches, Later, global_max_le, Reach-Later}

scope_quiet :
    (scope : ClearScope) (sid : String) (r s t : Tables)
    → Later sid r s
    → Later sid s t
    → Reaches scope sid s
    → global_max_kill_epoch sid t ≤ global_max_kill_epoch sid r
    → scope_active scope s ≡ false
    → scope_active scope t ≡ false
scope_quiet scope sid r s t (e, w, g, h, m) (e2, w2, g2, h2, m2) b n a = ground (
  arith,
  m2 scope b,
  w2 scope,
  global_max_le sid s,
  scope_active_lem scope s,
  scope_active_lem scope t,
)

quiet_tenant :
    (sid : String) (r s t : Tables) (tid : Option String)
    → Later sid r s
    → Later sid s t
    → global_max_kill_epoch sid t ≤ global_max_kill_epoch sid r
    → tenant_of sid s.strategies ≡ tid
    → tenant_active tid s ≡ false
    → tenant_active tid t ≡ false
quiet_tenant sid r s t none l k n e a = refl
quiet_tenant sid r s t (some x) l k n e a = scope_quiet (ClearScope.tenant x) sid r s t l k e n a

-- Stamp, then check, then send.
quiet :
    (sid : String) (r s t : Tables)
    → Later sid r s
    → Later sid s t
    → global_max_kill_epoch sid t ≤ global_max_kill_epoch sid r
    → active_kill sid s ≡ false
    → active_kill sid t ≡ false
quiet sid r s t l k n a = ground (
  arith,
  active_kill_lem sid s,
  active_kill_lem sid t,
  scope_quiet (ClearScope.strategy sid) sid r s t l k refl n,
  scope_quiet ClearScope.platform sid r s t l k tt n,
  quiet_tenant sid r s t (tenant_of sid s.strategies) l k n refl,
  ap (λ x. tenant_active x t) k.0,
)

module _ (new_id : Tables → String) where
  -- Where a strategy's highest epoch is stamped, then no kill is found active, then before the send
  -- its highest epoch is found not to be above the stamp, no kill is active at the send: whatever
  -- kills, clears and other transactions were committed in between.
  pub no_kill_unseen :
      (sid : String) (r s t : Tables)
      → Reach new_id r s
      → Reach new_id s t
      → active_kill sid s ≡ false
      → global_max_kill_epoch sid t ≤ global_max_kill_epoch sid r
      → active_kill sid t ≡ false
  no_kill_unseen sid r s t h k a n =
      quiet sid r s t (Reach-Later new_id sid r s h) (Reach-Later new_id sid s t k) n a
