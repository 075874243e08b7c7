-- ===== src/Consensus/DirtyTracker/Flushing.antt =====
-- When a flush is due, and what a drain leaves behind.
use activex_endpoint.Prelude.{ℕ, ◌+◌, ◌≤◌, ◌<◌, ◌≡◌, ◌↔◌, ◌⊎◌, true, false, arith, string_eq}
use activex_endpoint.Consensus.DirtyTracker.{DirtyTracker, pending_count, should_flush, drain}

-- A flush is due exactly when something is pending and either enough entries have piled up or the
-- tracker has been idle long enough.
pub should_flush_iff :
    (t : DirtyTracker) (now idle_seconds : ℕ)
    → (should_flush t now idle_seconds ≡ true) ↔ (
        (0 < pending_count t)
        × ((t.max_dirty_count ≤ pending_count t) ⊎ (t.last_change_at + idle_seconds ≤ now)))
unfolding should_flush
should_flush_iff t now idle = ground arith

-- Right after a drain nothing is pending, so no flush is due at any time.
pub should_flush-drain :
    (t : DirtyTracker) (now idle_seconds : ℕ)
    → (pending_count (drain t).0 ≡ 0) × (should_flush (drain t).0 now idle_seconds ≡ false)
unfolding should_flush drain
should_flush-drain t now idle = ground arith
