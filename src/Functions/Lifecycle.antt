-- ===== src/Functions/Lifecycle.antt =====
-- axo_shared/axo_shared/functions/lifecycle.py.
pub mod Runs
use activex_endpoint.Prelude.{Bool, true, false}

pub data FunctionState : Type 0 where
  registered cold_start running completed failed idle evicted : FunctionState

-- Membership in `_VALID_TRANSITIONS`.
unfoldable pub is_valid_transition : FunctionState → FunctionState → Bool
is_valid_transition registered cold_start = true
is_valid_transition cold_start running = true
is_valid_transition running completed = true
is_valid_transition running failed = true
is_valid_transition completed idle = true
is_valid_transition completed evicted = true
is_valid_transition failed idle = true
is_valid_transition failed evicted = true
is_valid_transition idle running = true
is_valid_transition idle evicted = true
is_valid_transition evicted cold_start = true
is_valid_transition _ _ = false
