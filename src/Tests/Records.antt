-- ===== src/Tests/Records.antt =====
-- The settings, mux sessions, tasks and bindings of gorp-core/src/session.rs on concrete rows.
use gorp_rs.Base.{true, false, ◌≡◌, ◌≢◌, ◌↔◌, refl, [], ◌∷◌, none, some, ok}
use gorp_rs.Database.{empty_db, query}
use gorp_rs.Session.Settings.{
  get_onboarding_state, set_onboarding_state, clear_onboarding_state, save_mux_session,
  load_mux_session, delete_mux_session,
}
use gorp_rs.Session.Settings.Laws.{get_onboarding_state-writes, load_mux_session-writes}
use gorp_rs.Session.Tasks.{
  DispatchTask, pending, in_progress, completed, from_str, to_string, create_dispatch_task,
  get_dispatch_task, update_dispatch_task_status, new_task,
}
use gorp_rs.Session.Tasks.Status.{from_str_iff}
use gorp_rs.Session.Tasks.Claims.{attempts, attempts_once}
use gorp_rs.Session.Tasks.Updates.{get_dispatch_task-create, get_dispatch_task-update, updated_task}
use gorp_rs.Tests.{stored_db}

onboarding_example :
    ((get_onboarding_state "@a" (set_onboarding_state "@a" "{}" (empty_db true)).0).1
      ≡ ok (some "{}"))
    × ((get_onboarding_state "@a" (clear_onboarding_state "@a" (empty_db true)).0).1 ≡ ok none)
onboarding_example = get_onboarding_state-writes "@a" "@a" "{}" (empty_db true) refl

mux_example :
    ((load_mux_session "m" (save_mux_session "m" "[]" none "now" (empty_db true)).0).1
      ≡ ok (some ("[]", none)))
    × ((load_mux_session "m" (delete_mux_session "m" (empty_db true)).0).1 ≡ ok none)
mux_example = load_mux_session-writes "m" "m" "[]" none "now" (empty_db true) refl

status_example : (from_str "pending" ≡ ok pending) ↔ ("pending" ≡ to_string pending)
status_example = from_str_iff "pending" pending

pending_ne : pending ≢ in_progress
pending_ne e = absurd (cc)

claims_example : (attempts "t" pending in_progress 3 stored_db).1 ≡ ok (true ∷ false ∷ false ∷ [])
unfolding to_string
claims_example = attempts_once "t" pending in_progress pending_ne 2 stored_db refl

created_example :
    ((create_dispatch_task "!pa" "report" "u" "now" stored_db).1
      ≡ ok (new_task "!pa" "report" "u" "now"))
    × ((get_dispatch_task "u" (create_dispatch_task "!pa" "report" "u" "now" stored_db).0).1
        ≡ ok (some (new_task "!pa" "report" "u" "now")))
created_example = get_dispatch_task-create "!pa" "report" "u" "now" stored_db refl refl

abbrev stored_task : DispatchTask
stored_task = record {
  id = "t";
  target_room_id = "!pa";
  prompt = "report";
  status = pending;
  created_at = "2025-01-01T00:00:00+00:00";
  completed_at = none;
  result_summary = none;
}

updated_example :
    (get_dispatch_task "t"
      (update_dispatch_task_status "t" completed (some "done") "now" stored_db).0).1
    ≡ ok (some (updated_task completed (some "done") "now" stored_task))
unfolding get_dispatch_task query
updated_example =
    get_dispatch_task-update "t" "t" completed (some "done") "now" stored_db (some stored_task) refl
      refl
