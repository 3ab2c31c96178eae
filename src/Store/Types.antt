-- ===== src/Store/Types.antt =====
-- control-plane/internal/store/types.go and schema.go: the rows of the safety tables, the tables, and
-- the SQL tests on a column. A table is a list in the order of insertion, a column that may be NULL
-- is an Option, and a comparison with NULL does not hold. An epoch is a natural number.
use alpha_mint_x.Base.{
  ℕ, String, Bool, true, false, ◌||◌, Option, none, some, List, [], ◌∷◌, ◌=ₛ◌, ltb, if◌then◌else◌,
}

pub data EventKind : Type 0 where
  kill breaker : EventKind

-- A row of `kill_breaker_events`.
pub record KillBreakerEvent : Type 0 where
  pub event_id : String
  pub kind : EventKind
  pub scope : String
  pub strategy_id : Option String
  pub tenant_id : Option String
  pub kill_epoch : Option ℕ
  pub flatten : Option Bool
  pub trigger_ref : Option String
  pub actor_id : String
  pub recorded_at : String

-- The scope of a clear, with the identifier that its rows carry.
pub data ClearScope : Type 0 where
  strategy tenant : String → ClearScope
  platform : ClearScope

-- A row of `kill_clear_events`: the columns scope, strategy_id and tenant_id are the scope and, at
-- the strategy's scope, the tenant for the audit.
pub record KillClearEvent : Type 0 where
  pub clear_id : String
  pub scope : ClearScope
  pub audit_tenant : String
  pub cleared_epoch : ℕ
  pub actor_id : String
  pub reason : String
  pub recorded_at : String

-- A row of `safety_effects`.
pub record SafetyEffect : Type 0 where
  pub event_id : String
  pub completed_at : String

-- A row of `safety_alerts`; the text of the details is the identifier that they name.
pub record SafetyAlert : Type 0 where
  pub alert_id : String
  pub kind : String
  pub strategy_id : Option String
  pub ref_id : Option String
  pub details : String
  pub recorded_at : String

-- A row of `strategies`, without its name and the time of its creation.
pub record StrategyRow : Type 0 where
  pub strategy_id : String
  pub tenant_id : String
  pub lifecycle_state : String
  pub updated_at : String

-- A row of `lifecycle_transitions`.
pub record TransitionRow : Type 0 where
  pub transition_id : String
  pub strategy_id : String
  pub from_state : String
  pub to_state : String
  pub actor_id : String
  pub actor_role : String
  pub reason : String
  pub recorded_at : String

pub record Tables : Type 0 where
  pub strategies : List StrategyRow
  pub events : List KillBreakerEvent
  pub clears : List KillClearEvent
  pub effects : List SafetyEffect
  pub alerts : List SafetyAlert
  pub transitions : List TransitionRow

-- The errors of the transactions; `constraint` is a key that the table has already.
pub data StoreError : Type 0 where
  not_found no_active_kill clear_conflict constraint : StoreError

-- `column = text`.
abbrev pub text_is : Option String → String → Bool
text_is none t = false
text_is (some c) t = c =ₛ t

-- `column = text OR (column IS NULL AND text = '')`.
abbrev pub text_is_or_null : Option String → String → Bool
text_is_or_null none t = "" =ₛ t
text_is_or_null (some c) t = c =ₛ t

-- `column > number`.
abbrev pub is_above : Option ℕ → ℕ → Bool
is_above none m = false
is_above (some k) m = ltb m k

abbrev pub is_kill : EventKind → Bool
is_kill EventKind.kill = true
is_kill EventKind.breaker = false

-- `EXISTS (SELECT 1 ... WHERE test)`, and `COUNT(*) > 0`.
abbrev pub exists_row {ℓ} : {A : Type ℓ} → (A → Bool) → List A → Bool
exists_row test [] = false
exists_row test (x ∷ xs) = test x || exists_row test xs

abbrev pub max_with : Option ℕ → ℕ → ℕ
max_with none m = m
max_with (some k) m = if ltb m k then k else m

-- `SELECT COALESCE(MAX(kill_epoch), 0) ... WHERE test`.
unfoldable pub max_epoch : (KillBreakerEvent → Bool) → List KillBreakerEvent → ℕ
max_epoch test [] = 0
max_epoch test (e ∷ es) =
    let rest = max_epoch test es in if test e then max_with e.kill_epoch rest else rest

-- `SELECT COALESCE(MAX(cleared_epoch), 0) ... WHERE test`.
unfoldable pub max_cleared : (KillClearEvent → Bool) → List KillClearEvent → ℕ
max_cleared test [] = 0
max_cleared test (c ∷ cs) =
    let rest = max_cleared test cs in if test c then max_with (some c.cleared_epoch) rest else rest

-- `SELECT tenant_id FROM strategies WHERE strategy_id = ?`.
unfoldable pub tenant_of : String → List StrategyRow → Option String
tenant_of sid [] = none
tenant_of sid (r ∷ rs) = if r.strategy_id =ₛ sid then some r.tenant_id else tenant_of sid rs
