-- ===== src/Consensus/Sync/Replication.antt =====
-- From the leader's function registry to a follower's: the operations of
-- axo_endpoint/core/functions/registry.py, the bridge of registry_sync.py, the tracker of
-- dirty_tracker.py, and the bridge again.
use activex_endpoint.Prelude.{
  ℕ, String, ◌≡◌, refl, sym, ap, ◌∙◌, inl, inr, true, Option, none, some, List, [], ◌∷◌, ◌++◌, All,
  length, drop, if◌then◌else◌, ◌==◌, string_eq, pair_beq, pair_beq_iff, nat_eq, Bool-cases,
}
use activex_endpoint.Prelude.Dict
use activex_endpoint.Prelude.Dict.{Dict, Distinct}
use activex_endpoint.Prelude.Outcome.{ok}
use activex_endpoint.Storage.InMemory.Laws.{full_key}
use activex_endpoint.Storage.Backend.{StorageBackend, IsMap, WritesGoThrough}
use activex_endpoint.Functions.Registry.{FunctionRecord, FunctionRegistry, Event, EventType}
use activex_endpoint.Functions.Registry.Effects.{
  Tells, event_of, Effect, register-Effect, update-Effect, delete-Effect,
}
use activex_endpoint.Consensus.Sync.Leader.{
  Call, time, perform, Leader, deliver_all, call, call_all,
}
use activex_endpoint.Consensus.StateMachine.{Bytes}
use activex_endpoint.Consensus.DirtyTracker.{DirtyTracker, init, mark_function_dirty, drain}
use activex_endpoint.Consensus.Sync.{WireLib, IsFaithful, combined_key, serialize_tombstone}
use activex_endpoint.Consensus.Sync.Functions.{
  read_change, serialize_function_record, deliver, on_function_event, on_function_updated,
  on_function_deleted, apply_incoming,
}
use activex_endpoint.Consensus.Sync.Records.{
  seen, seen-seen, read_change-record, read_change-tombstone,
}
use activex_endpoint.Consensus.Sync.Absorb.{
  IsReadable, changed, combined_key-beq, Absorbs, apply_incoming-Absorbs,
}

-- What replication keeps of a version.
abbrev pub seen_option : Option FunctionRecord → Option FunctionRecord
seen_option none = none
seen_option (some r) = some (seen r)

seen_option_twice : (o : Option FunctionRecord) → seen_option (seen_option o) ≡ seen_option o
seen_option_twice none = refl
seen_option_twice (some r) = ap some (seen-seen r)

drop-told : {A : Type 0} (xs : List A) (x : A) → drop (length xs) (xs ++ x ∷ []) ≡ x ∷ []
drop-told [] x = refl
drop-told (y ∷ xs) x = drop-told xs x

drop-all : {A : Type 0} (xs : List A) → drop (length xs) xs ≡ []
drop-all [] = refl
drop-all (y ∷ xs) = drop-all xs

module _ (b : StorageBackend FunctionRecord) (m : IsMap b) (t : WritesGoThrough b m) (w : WireLib)
    (k : IsFaithful w) where
  open m use {IsValid, lookup, get_lem}

  -- The bridge marks the version that an event tells of, with what the store holds of it.
  record Marked (r : FunctionRegistry b) (d : DirtyTracker) (event : Event) (f : String) (v : ℕ)
      (o : Option FunctionRecord) (now : ℕ) : Type 0 where
    blob : Bytes
    marks : deliver b w r d event now ≡ mark_function_dirty d (combined_key f (some v)) blob now
    reads : read_change w blob ≡ some (seen_option o)

  deliver-Marked :
      (r : FunctionRegistry b) (d : DirtyTracker) (ev : EventType) (f : String) (v : ℕ)
      (o : Option FunctionRecord) (told now : ℕ)
      → IsValid r.store
      → Tells ev o
      → lookup r.store f v ≡ o
      → Marked r d (event_of ev f v told) f v o now
  unfolding deliver on_function_event on_function_updated on_function_deleted
  deliver-Marked r d ev f v o told now valid (inl (is_delete, gone)) there = record {
    blob = serialize_tombstone w;
    marks = rw is_delete;
    reads = read_change-tombstone w k ∙ ap some (sym (ap seen_option gone));
  }
  deliver-Marked r d ev f v o told now valid (inr (x, is_x, which)) there =
      let got : b.get r.store (full_key f v) ≡ ok (some x) =
        get_lem r.store f v valid ∙ ap ok (there ∙ is_x) in
      record {
        blob = serialize_function_record w x;
        marks = elim which [
          | inl a ↦ rw (a, got, on_function_event)
          | inr u ↦ rw (u, got, on_function_event)
        ];
        reads = read_change-record w k x ∙ ap some (sym (ap seen_option is_x));
      }

  -- The follower's store, with the pending changes made, is the leader's as replication keeps it.
  pub record Tracks (l : Leader b) (s : b.Store) : Type 0 where
    pub valid : IsValid l.registry.store
    pub distinct : Distinct l.tracker.pending_functions
    pub readable : All (IsReadable w) l.tracker.pending_functions
    pub agrees :
        (g : String) (u : ℕ)
        → seen_option (
            changed w
              (Dict.get l.tracker.pending_functions (combined_key g (some u)))
              (lookup s g u))
          ≡ seen_option (lookup l.registry.store g u)

  All-put :
      (P : String × Bytes → Type 0) (d : Dict String Bytes) (j : String) (x : Bytes)
      → All P d
      → P (j, x)
      → ((i : String) (y : Bytes) → i ≡ j → P (i, x))
      → All P (Dict.put d j x)
  unfolding Dict.put
  All-put P [] j x h p q = (p, tt)
  All-put P ((i, y) ∷ d) j x h p q = elim (Bool-cases (i == j)) [
    | inl same ↦ rw same (q i y ((string_eq.beq_iff i j).0 same), h.1)
    | inr apart ↦ rw apart (h.0, All-put P d j x h.1 p q)
  ]

  agrees-mark :
      (d : Dict String Bytes) (f : String) (v : ℕ) (blob : Bytes)
      (o old before : Option FunctionRecord) (g : String) (u : ℕ)
      → read_change w blob ≡ some (seen_option o)
      → seen_option (changed w (Dict.get d (combined_key g (some u))) before) ≡ seen_option old
      → seen_option (
          changed w
            (Dict.get (Dict.put d (combined_key f (some v)) blob) (combined_key g (some u)))
            before)
        ≡ seen_option (if pair_beq (f, v) (g, u) then o else old)
  agrees-mark d f v blob o old before g u reads h =
      rw
        (
          Dict.get-put d (combined_key f (some v)) (combined_key g (some u)) blob,
          combined_key-beq f g v u,
        )
        (elim (Bool-cases (pair_beq (f, v) (g, u))) [
          | inl same ↦ rw (same, reads) (seen_option_twice o)
          | inr apart ↦ rw apart h
        ])

  call-told :
      (l : Leader b) (c : Call) (s : b.Store)
      → Tracks l s
      → Effect b m l.registry (perform b l.registry c) (time c)
      → Tracks (call b w l c) s
  unfolding call deliver_all mark_function_dirty
  call-told l c s h (inl same) =
      let still : deliver_all b w (perform b l.registry c) l.tracker
            (drop (length l.registry.emitted) (perform b l.registry c).emitted) (time c)
          ≡ l.tracker =
        rw (same, drop-all l.registry.emitted) in
      record {
        valid = rw same h.valid;
        distinct = rw still h.distinct;
        readable = rw still h.readable;
        agrees = λ g u. rw (still, same) (h.agrees g u);
      }
  call-told l c s h (inr changes) =
      let f = changes.function_id in
      let v = changes.version in
      let r = perform b l.registry c in
      let there : lookup r.store f v ≡ changes.value =
        rw (changes.holds f v, (pair_beq_iff (f, v) (f, v)).1 refl) in
      let mk : Marked r l.tracker (event_of changes.event f v (time c)) f v changes.value (time c) =
        deliver-Marked r l.tracker changes.event f v changes.value (time c) (time c) changes.valid
          changes.tells there in
      let key = combined_key f (some v) in
      let pending : (call b w l c).tracker.pending_functions
          ≡ Dict.put l.tracker.pending_functions key mk.blob =
        rw (changes.told, drop-told l.registry.emitted, mk.marks) in
      record {
        valid = changes.valid;
        distinct =
            rw pending (Dict.put-Distinct l.tracker.pending_functions key mk.blob h.distinct);
        readable = rw pending (
            All-put (IsReadable w) l.tracker.pending_functions key mk.blob h.readable
              (f, v, seen_option changes.value, refl, mk.reads)
              (λ i y same. (f, v, seen_option changes.value, same, mk.reads)));
        agrees = λ g u.
            rw (pending, changes.holds g u)
              (agrees-mark l.tracker.pending_functions f v mk.blob changes.value
                (lookup l.registry.store g u) (lookup s g u) g u mk.reads (h.agrees g u));
      }

  perform-Effect :
      (r : FunctionRegistry b) (c : Call) → IsValid r.store → Effect b m r (perform b r c) (time c)
  unfolding perform
  perform-Effect r (Call.register f name code spec format schema now) valid =
      register-Effect b m t r f name code now spec format schema valid
  perform-Effect r (Call.update f v schema env now) valid =
      update-Effect b m t r f v now schema env valid
  perform-Effect r (Call.delete f v now) valid = delete-Effect b m t r f v now valid

  -- Registrations, updates and deletions on the leader keep the follower in step, once the pending
  -- changes are made.
  pub call_all-Tracks :
      (l : Leader b) (calls : List Call) (s : b.Store)
      → Tracks l s
      → Tracks (call_all b w l calls) s
  unfolding call_all
  call_all-Tracks l [] s h = h
  call_all-Tracks l (c ∷ calls) s h =
      call_all-Tracks (call b w l c) calls s
        (call-told l c s h (perform-Effect l.registry c h.valid))

  -- The follower goes through the changes and ends up with the leader's versions.
  pub record InSync (leader : b.Store) (changes : Dict String Bytes) (s : b.Store) : Type 0 where
    pub finished : (apply_incoming b w s changes).finished ≡ true
    pub valid : IsValid (apply_incoming b w s changes).store
    pub same :
        (g : String) (u : ℕ)
        → seen_option (lookup (apply_incoming b w s changes).store g u)
          ≡ seen_option (lookup leader g u)

  -- A leader with nothing pending and a follower hold the same versions, but for empty schemas and
  -- null defaults. After any registrations, updates and deletions on the leader, each told to the
  -- bridge, the follower goes through the drained changes without an exception, and again holds
  -- the same versions as the leader. Both backends are maps whose writes go through, and the wire
  -- libraries read back what they write.
  pub apply_incoming-InSync :
      (registry : FunctionRegistry b) (max_dirty_count : ℕ) (calls : List Call) (s : b.Store)
      → IsValid registry.store
      → IsValid s
      → ((g : String) (u : ℕ)
          → seen_option (lookup s g u) ≡ seen_option (lookup registry.store g u))
      → let l =
          call_all b w (record { registry = registry; tracker = init max_dirty_count }) calls in
        InSync l.registry.store (drain l.tracker).1.function_changes s
  unfolding drain Dict.get
  apply_incoming-InSync registry n calls s valid valid_s same =
      let start : Tracks (record { registry = registry; tracker = init n }) s = record {
        valid = valid;
        distinct = tt;
        readable = tt;
        agrees = same;
      } in
      let l : Leader b = call_all b w (record { registry = registry; tracker = init n }) calls in
      let h : Tracks l s =
        call_all-Tracks (record { registry = registry; tracker = init n }) calls s start in
      let a : Absorbs b m w s l.tracker.pending_functions =
        apply_incoming-Absorbs b m w t s l.tracker.pending_functions valid_s h.distinct
          h.readable in
      record {
        finished = a.finished;
        valid = a.valid;
        same = λ g u. ap seen_option (a.holds g u) ∙ h.agrees g u;
      }
