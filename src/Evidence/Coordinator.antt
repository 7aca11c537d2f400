-- ===== src/Evidence/Coordinator.antt =====
-- `EvidenceCoordinator` of manager/evidence.py: the schedule of the audits. An audit that runs in
-- the pool is what was submitted, and a tick asks for each whether it has ended, and how.
use machine_manager.Base.{
  ℕ, ◌+◌, Bool, true, false, not, ◌&&◌, ◌||◌, Option, none, some, List, [], ◌∷◌, ◌++◌, leb, map,
  if◌then◌else◌,
}
use machine_manager.Base.Assoc.{select, upsert, remove}
use machine_manager.Base.Exec.{Exec, pure, gets, lift, modify, ◌>>=◌, ◌>>◌}
use machine_manager.Base.Json.{Json, decimal}
use machine_manager.Base.Result.{Result, ok, err, foreign, error_name}
use machine_manager.Base.Text.{Text, text, text_eq}
use machine_manager.Store.Snapshots.{Table}
use machine_manager.Evidence.{Target, Report}
use machine_manager.Evidence.Profiles.{Profile, ProfileEvent, sync_profiles}

-- `target.run` with its cursor, in the pool; the number tells the submissions apart.
pub record Submitted : Type 0 where
  pub number : ℕ
  pub start_after : Text

-- What the table of audits keeps; the time is in milliseconds, and none if it is no time.
pub record Audit : Type 0 where
  pub scanned_at : Option ℕ
  pub scan_signature : Text
  pub report : Report

-- An event, but for its id and time; the metrics are those of the report.
pub data Event : Type 0 where
  of_profile : ProfileEvent → Event
  audit_failed : Text → Text → Event
  audit_completed : Text → Report → Event
  audit_started : Text → Event

pub record Config : Type 0 where
  pub profiles : List Profile
  pub targets : List Target
  pub audit_interval : ℕ

pub record Coordinator : Type 0 where
  pub pending : List (Text × Submitted)
  pub submissions : ℕ
  pub profiles_synced : Bool
  pub profile_rows : Table
  pub audits : List (Text × Audit)

-- `next(item for item in self.targets if item.target_id == target_id)`
unfoldable pub find_target : Text → List Target → Result Target
unfolding text
find_target id [] = err (foreign (text "StopIteration"))
find_target id (t ∷ ts) =
    let later = find_target id ts in if text_eq t.target_id id then ok t else later

abbrev pub is_some {ℓ} : {A : Type ℓ} → Option A → Bool
is_some none = false
is_some (some a) = true

module _ (repr : Json → Text) (digest : Text → Text) (config : Config) where
  -- `AuditTarget.scan_signature`
  unfoldable pub scan_signature : Target → Text
  unfolding text decimal
  scan_signature t = digest (
      text "{\"algorithm\":\"2\",\"max_file_bytes\":"
      ++ decimal t.max_file_bytes t.max_file_bytes
      ++ text ",\"max_files\":"
      ++ decimal t.max_files t.max_files
      ++ text ",\"max_findings\":"
      ++ decimal t.max_findings t.max_findings
      ++ text "}")

  abbrev pub end_sync : Result (List ProfileEvent) × Table → Exec Coordinator (List Event)
  end_sync (ok events, rows) st =
      (ok (map of_profile events), record st { profiles_synced = true; profile_rows = rows })
  end_sync (err e, rows) st = (err e, record st { profile_rows = rows })

  -- `_sync_profiles`
  unfoldable pub sync_once : (Text → Text) → Exec Coordinator (List Event)
  unfolding sync_profiles
  sync_once clock st =
      if st.profiles_synced
      then (ok [], st)
      else end_sync (sync_profiles repr digest clock config.profiles st.profile_rows) st

  -- What becomes of an audit that has ended.
  unfoldable pub settle_audit : Target → Result Audit → Exec Coordinator Event
  unfolding error_name upsert
  settle_audit target (err e) = pure (audit_failed target.target_id (error_name e))
  settle_audit target (ok audit) =
      modify (λ st. record st { audits = upsert target.target_id audit st.audits })
      >> pure (audit_completed target.target_id audit.report)

  -- The loop of `tick` over the pending audits.
  unfoldable pub collect_audits :
      (Submitted → Option (Result Audit)) → List (Text × Submitted) → Exec Coordinator (List Event)
  unfolding remove find_target settle_audit
  collect_audits done [] = pure []
  collect_audits done ((id, submitted) ∷ items) = elim (done submitted) [
    | none ↦ collect_audits done items
    | some outcome ↦
        modify (λ st. record st { pending = remove id st.pending })
        >> (lift (find_target id config.targets) >>= λ target.
            settle_audit target outcome >>= λ event.
            collect_audits done items >>= λ later. pure (event ∷ later))
  ]

  abbrev interval_of : Option ℕ → ℕ
  interval_of none = config.audit_interval
  interval_of (some interval) = interval

  abbrev is_stale : ℕ → Target → Option ℕ → Bool
  is_stale now target none = true
  is_stale now target (some at) = leb (at + interval_of target.interval) now

  abbrev needs_audit : ℕ → Target → Option Audit → Bool
  needs_audit now target none = true
  needs_audit now target (some audit) =
      not (text_eq audit.scan_signature (scan_signature target))
      || is_stale now target audit.scanned_at

  -- `_audit_due`
  unfoldable pub audit_due : ℕ → Target → Coordinator → Bool
  unfolding select scan_signature
  audit_due now target st =
      not (is_some (select target.target_id st.pending))
      && needs_audit now target (select target.target_id st.audits)

  abbrev cursor_of : Option Audit → Text
  cursor_of none = []
  cursor_of (some audit) = audit.report.next_cursor

  -- `self._pending[target.target_id] = self._executor.submit(…)`
  unfoldable pub submit : Target → Coordinator → Coordinator
  unfolding select upsert
  submit target st =
      let cursor = cursor_of (select target.target_id st.audits) in
      record st {
        pending =
            upsert target.target_id (record { number = st.submissions; start_after = cursor })
              st.pending;
        submissions = st.submissions + 1;
      }

  -- The loop of `tick` over the targets.
  unfoldable pub start_due : ℕ → List Target → Exec Coordinator (List Event)
  unfolding audit_due submit
  start_due now [] st = (ok [], st)
  start_due now (target ∷ targets) st =
      let going = start_due now targets st in
      let started =
        (modify (submit target)
            >> (start_due now targets >>= λ later. pure (audit_started target.target_id ∷ later)))
          st in
      if audit_due now target st then started else going

  -- `tick`
  unfoldable pub tick :
      (Text → Text) → (Submitted → Option (Result Audit)) → ℕ → Exec Coordinator (List Event)
  unfolding sync_once collect_audits start_due
  tick clock done now = sync_once clock >>= λ synced. gets (λ st. st.pending) >>= λ items.
      collect_audits done items >>= λ collected.
      start_due now config.targets >>= λ started. pure (synced ++ collected ++ started)
