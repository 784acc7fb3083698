-- ===== src/Tests/Watch.antt =====
-- Small inputs for the output of processes, the decisions of a recovery, and the notices.
use agent_relay_auto.Prelude.{
  ◌+◌, ◌≤◌, ◌≡◌, refl, true, false, not, String, none, List, [], ◌∷◌, ◌++◌, if◌then◌else◌,
}
use agent_relay_auto.Prelude.Int.{pos}
use agent_relay_auto.Value.{Fields, no_members, field, int}
use agent_relay_auto.Outcome.{ok}
use agent_relay_auto.Output.{drain, last_part, written, drain_refines}
use agent_relay_auto.Recovery
use agent_relay_auto.Recovery.{reconcile, monitor}
use agent_relay_auto.Notices.{
  NotificationKey, NoticeJournal, emit_once, emit_all, is_known, same_notice, times, emit_refines,
  shown_once,
}

drain_refines_example :
    (drain
      ((3 ∷ 4 ∷ []) ∷ [] ∷ (5 ∷ []) ∷ [])
      (record { limit = 3; content = last_part 3 (1 ∷ 2 ∷ []) })).content
    ≡ last_part 3 ((1 ∷ 2 ∷ []) ++ written ((3 ∷ 4 ∷ []) ∷ [] ∷ (5 ∷ []) ∷ []))
drain_refines_example = drain_refines 2 (1 ∷ 2 ∷ []) ((3 ∷ 4 ∷ []) ∷ [] ∷ (5 ∷ []) ∷ [])

abbrev run : Fields
run = field "pid" (int (pos 7)) (field "process_started_at" (int (pos 100)) no_members)

same_process : reconcile run true (int (pos 100)) none ≡ monitor
unfolding reconcile
same_process = refl

other_process : reconcile run true (int (pos 101)) none ≡ Recovery.blocked
unfolding reconcile
other_process = refl

abbrev blocked : NotificationKey
blocked = record { project = "p"; task_id = "TASK-1"; state = "BLOCKED"; revision = pos 4 }

abbrev again : NotificationKey
again = record { project = "p"; task_id = "TASK-1"; state = "BLOCKED"; revision = pos 5 }

emit_refines_example :
    (j : NoticeJournal) × (emit_once blocked "s" [] ≡ ok (not false, j))
    × (is_known again j ≡ ok (if same_notice blocked again then true else false))
unfolding is_known
emit_refines_example = emit_refines blocked again "s" [] false false refl refl

abbrev calls : List (NotificationKey × String)
calls = (blocked, "s") ∷ (again, "s") ∷ (blocked, "s") ∷ []

shown_once_example : times blocked (blocked ∷ again ∷ []) + (if false then 1 else 0) ≤ 1
unfolding is_known emit_all
shown_once_example = shown_once blocked calls [] _ (blocked ∷ again ∷ []) false refl refl
