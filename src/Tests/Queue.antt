-- ===== src/Tests/Queue.antt =====
-- Two calls of `activate_next_queued_task` on an index with two queued tasks.
use agent_relay_auto.Prelude.{◌≡◌, refl, false, none, some, [], ◌∷◌}
use agent_relay_auto.Prelude.Int.{pos, succ_ℤ}
use agent_relay_auto.Value.{null, int, str, arr, no_items, item}
use agent_relay_auto.Outcome.{value_error, ok, err}
use agent_relay_auto.Markdown.{Doc, entry, section, nested}
use agent_relay_auto.Markdown.Write.{write_values}
use agent_relay_auto.Store.Base.{Disk}
use agent_relay_auto.Queue.{activate_next_queued_task}
use agent_relay_auto.Queue.Serial.{Started, activation_is_serial}

abbrev disk : Doc → Disk
disk doc = record {
  locked = false;
  project = some doc;
  tasks = [];
  transactions = some [];
  clock = "2026-01-01T00:00:00+00:00";
  files = [];
}

abbrev idle_index : Doc
idle_index =
    entry "project_revision" (int (pos 4))
    ∷ entry "active_task" null
    ∷ entry "updated_at" null
    ∷ section "tasks"
    ∷ nested "active" (arr no_items)
    ∷ nested "queued" (arr (item (str "T-2") (item (str "T-3") no_items)))
    ∷ []

abbrev started_index : Doc
started_index =
    entry "project_revision" (int (pos 5))
    ∷ entry "active_task" (str "T-2")
    ∷ entry "updated_at" (str "2026-01-01T00:00:00+00:00")
    ∷ section "tasks"
    ∷ nested "active" (arr (item (str "T-2") no_items))
    ∷ nested "queued" (arr (item (str "T-3") no_items))
    ∷ []

first_call :
    activate_next_queued_task (pos 4) (disk idle_index)
    ≡ (ok (some (str "T-2")), disk started_index)
unfolding activate_next_queued_task write_values succ_ℤ
first_call = refl

second_call : activate_next_queued_task (pos 5) (disk started_index) ≡ (ok none, disk started_index)
unfolding activate_next_queued_task
second_call = refl

stale_call :
    activate_next_queued_task (pos 4) (disk started_index) ≡ (err value_error, disk started_index)
unfolding activate_next_queued_task
stale_call = refl

activation_is_serial_example : Started (pos 4) (disk idle_index) (str "T-2") (disk started_index)
activation_is_serial_example =
    activation_is_serial (pos 4) (disk idle_index) (str "T-2") (disk started_index) first_call
