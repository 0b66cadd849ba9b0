-- ===== src/Tests/Rounds.antt =====
-- The loops of src/orchestrator.rs and src/scheduler.rs, and the handles of gorp-agent/src/handle.rs.
use gorp_rs.Sql.Order.{text_le}
use gorp_rs.Sql.{update}
use gorp_rs.Base.{
  ◌≤◌, String, true, false, ◌≡◌, refl, List, [], ◌∷◌, Option, none, some, ok, err, message, arith,
  All, length,
}
use gorp_rs.Database.{execute, query}
use gorp_rs.Session.Bindings.{list_all_bindings, resolve_binding}
use gorp_rs.Bus.{BusMessage, platform, dispatch, session, resolve_target, new}
use gorp_rs.Bus.Restart.{target_of}
use gorp_rs.Chat.{AgentEvent}
use gorp_rs.Scheduler.Status.{executing}
use gorp_rs.Scheduler.Store.{
  ScheduledPrompt, claim_due_schedules, is_due, read_claimed, schedule_of,
}
use gorp_rs.Scheduler.Tick.{run_due}
use gorp_rs.Scheduler.Tick.Ends.{Settled, run_due-Settled}
use gorp_rs.Orchestrator.Dedup.{see}
use gorp_rs.Orchestrator.Dedup.Memory.{empty, see_all, see-again}
use gorp_rs.Orchestrator.Agent.{Timing}
use gorp_rs.Orchestrator.Run.{Turn, run}
use gorp_rs.Orchestrator.Run.Served.{restarted, run-restarted}
use gorp_rs.Agent.{AgentHandle, abandon_session, prompt, new_handle, session_created, begin_prompt}
use gorp_rs.Agent.Prompts.{Step, created, began, ended, first_prompts}
use gorp_rs.Agent.Prompts.First.{take_all, begin_prompt-session_created}
use gorp_rs.Tests.{wire, clockwork, disk, daily, stored_db}
use gorp_rs.Tests.Warm.{mock, cold, evicting}

abbrev given : List (AgentEvent String) → List (AgentEvent String)
given r = r

abbrev times : Timing clockwork.unicode wire mock given
times = record {
  looked_at = 1;
  opened_at = 2;
  sent_at = 3;
  answered_at = "now";
  meanwhile = evicting;
}

abbrev join_message : BusMessage
join_message = record {
  id = "m1";
  source = platform "slack" "C1";
  session_target = dispatch;
  sender = "ann";
  body = "!join pa";
  timestamp = "now";
}

abbrev hello : BusMessage
hello = record join_message { id = "m2"; session_target = session "pa"; body = "hello" }

abbrev turns : List (Turn clockwork disk wire mock given "/w")
turns = ("u1", times, join_message) ∷ ("u2", times, hello) ∷ ("u3", times, hello) ∷ []

served_example :
    (found : Option String) × ((resolve_binding "slack" "C1"
        (run clockwork disk wire mock given "/w" turns
          (restarted clockwork disk wire mock given "/w" 256 [] stored_db [] (some cold))).db).1
      ≡ ok found)
    × (resolve_target wire
          (run clockwork disk wire mock given "/w" turns
            (restarted clockwork disk wire mock given "/w" 256 [] stored_db [] (some cold))).bus
          "slack"
          "C1"
        ≡ target_of found)
unfolding list_all_bindings query
served_example =
    run-restarted clockwork disk wire mock given "/w" 256 [] stored_db [] (some cold) turns "slack"
      "C1" refl tt refl

abbrev monday : String
monday = "2025-01-02T08:00:00+00:00"

abbrev claimed : ScheduledPrompt
claimed = schedule_of executing none daily

round_example :
    All
      (λ s.
        Settled s.id
          (run_due clockwork wire "UTC" (λ s. monday) monday (stored_db, new wire 16, [])).0)
      (claimed ∷ [])
unfolding claim_due_schedules execute query update is_due text_le read_claimed
round_example =
    run_due-Settled clockwork wire "UTC" (λ s. monday) monday stored_db (new wire 16) []
      (claimed ∷ []) refl refl

-- A limit of 4 forgets 2.
seen_example :
    (length (see_all 4 ("a" ∷ []) empty).set ≤ 4)
    × ((see 4 "b" (see_all 4 ("c" ∷ "d" ∷ []) (see 4 "b" (see_all 4 ("a" ∷ []) empty)).0)).1
        ≡ false)
unfolding see
seen_example = see-again 4 (omega arith) ("a" ∷ []) ("c" ∷ "d" ∷ []) "b" (omega arith) refl

abbrev earlier_steps : List Step
earlier_steps = created (ok "t") ∷ began "t" "go" ∷ ended "t" true (ok tt) ∷ []

abbrev later_steps : List Step
later_steps = ended "s" true (err (message "no answer")) ∷ began "s" "again" ∷ []

abbrev prepared : AgentHandle
prepared = take_all earlier_steps (session_created (ok "s") (new_handle "acp")).0

first_example :
    ((begin_prompt "s" "hello" prepared).1 ≡ prompt "s" "hello" true)
    × (first_prompts "s" later_steps (begin_prompt "s" "hello" prepared).0 ≡ 0)
    × (first_prompts "s" later_steps (abandon_session "s" prepared) ≡ 0)
first_example =
    begin_prompt-session_created "s" "hello" earlier_steps later_steps (new_handle "acp")
      (refl, (refl, tt)) tt
