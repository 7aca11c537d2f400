-- ===== src/Runtime.antt =====
-- What the modelled code takes from outside: the clocks, fresh ids and the text redaction; and the
-- state that a method works on, the store with a count of the calls made to the outside.
use machine_manager.Base.{ℕ, suc, List, ◌∷◌}
use machine_manager.Base.Exec.{Exec}
use machine_manager.Base.Result.{Result, ok, err}
use machine_manager.Base.Text.{Text}
use machine_manager.Store.{Store}
use machine_manager.Store.Events.{Event, EventRow, append_event}

-- The n-th call of each. `utc_now` gives the first code point of the stamp and the others, since a
-- stamp is never empty; `time` is `time.time()` in milliseconds; `uuid` is the hexadecimal text;
-- `redact` is `redact_text` of manager/redaction.py, whose regular expressions are not modelled.
pub record Runtime : Type 0 where
  pub utc_now : ℕ → ℕ × Text
  pub time : ℕ → ℕ
  pub uuid : ℕ → Text
  pub redact : Text → ℕ → Text

pub record System : Type 0 where
  pub store : Store
  pub calls : ℕ

abbrev pub tick : System → System
tick s = record s { calls = suc s.calls }

abbrev pub read_time : Runtime → Exec System ℕ
read_time r s = (ok (r.time s.calls), tick s)

abbrev pub read_stamp : Runtime → Exec System Text
read_stamp r s = (ok ((r.utc_now s.calls).0 ∷ (r.utc_now s.calls).1), tick s)

abbrev pub fresh_uuid : Runtime → Exec System Text
fresh_uuid r s = (ok (r.uuid s.calls), tick s)

abbrev pub with_events : System → Result (List EventRow) → Result (Unit {0}) × System
with_events s (ok rows) = (ok tt, record s { store = record (s.store) { events = rows } })
with_events s (err e) = (err e, s)

-- `store.append_event` as a method.
unfoldable pub append : Event → Exec System Unit
append e s = with_events s (append_event s.store.event_retention e s.store.events)
