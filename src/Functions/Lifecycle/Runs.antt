-- ===== src/Functions/Lifecycle/Runs.antt =====
-- Histories of the state changes of lifecycle.py.
use activex_endpoint.Prelude.{◌≡◌, ◌⊎◌, inl, inr, refl, true}
use activex_endpoint.Functions.Lifecycle.{
  FunctionState, registered, cold_start, running, completed, failed, idle, evicted,
  is_valid_transition,
}

-- A history of states that passed only allowed changes; the last state is the index.
pub data Run : FunctionState → Type 0 where
  start : Run registered
  change :
      {s : FunctionState} → Run s → (t : FunctionState) → is_valid_transition s t ≡ true → Run t

-- Whether the function was ever in the state `q`.
abbrev pub Visited : (q : FunctionState) {s : FunctionState} → Run s → Type 0
Visited q start = q ≡ registered
Visited q (change r t h) = (q ≡ t) ⊎ Visited q r

-- What a state asks of the history that led to it.
abbrev pub Needs : FunctionState → {s : FunctionState} → Run s → Type 0
Needs registered r = Unit
Needs cold_start r = Visited cold_start r
Needs _ r = Visited cold_start r × Visited running r

Needs-change :
    (s t : FunctionState) (r : Run s) (h : is_valid_transition s t ≡ true)
    → Needs s r
    → Needs t (change r t h)
unfolding is_valid_transition
Needs-change registered cold_start r h n = inl refl
Needs-change cold_start running r h n = (inr n, inl refl)
Needs-change running completed r h n = (inr n.0, inr n.1)
Needs-change running failed r h n = (inr n.0, inr n.1)
Needs-change completed idle r h n = (inr n.0, inr n.1)
Needs-change completed evicted r h n = (inr n.0, inr n.1)
Needs-change failed idle r h n = (inr n.0, inr n.1)
Needs-change failed evicted r h n = (inr n.0, inr n.1)
Needs-change idle running r h n = (inr n.0, inl refl)
Needs-change idle evicted r h n = (inr n.0, inr n.1)
Needs-change evicted cold_start r h n = inl refl
Needs-change _ _ r h n = cc

-- A function that is starting cold has been started cold, and one that is running, completed, failed,
-- idle or evicted has been started cold and has run, whatever allowed changes led there.
pub Run-Needs : {s : FunctionState} (r : Run s) → Needs s r
Run-Needs start = tt
Run-Needs (change {s = s} r t h) = Needs-change s t r h (Run-Needs r)
