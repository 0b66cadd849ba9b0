-- ===== src/Scheduler/Execute/Outcome.antt =====
-- src/scheduler.rs, execute_schedule: how an execution may end.
use gorp_rs.Base.{
  String, ◌≡◌, refl, Option, none, some, Result, ok, err, Error, error_text, ◌⊎◌, inl, inr,
}
use gorp_rs.Text.{◌^^◌}
use gorp_rs.Database.{Db, Channel, ScheduleRow}
use gorp_rs.Session.Channels.{get_by_name}
use gorp_rs.Bus.{Broadcast, MessageBus, publish_inbound}
use gorp_rs.Scheduler.Store.{ScheduledPrompt, executed, mark_executed, mark_failed}
use gorp_rs.Scheduler.Store.Reads.{row_of, row_of-update_id}
use gorp_rs.Scheduler.Store.Lifecycle.{mark_executed_eq, mark_failed_eq, failed_row, executed-id}
use gorp_rs.Scheduler.Execute.{
  Env, World, schedule_message, reschedule, finish_with, finish, publish_prompt, run_in,
  execute_schedule, expand_slash_command, write_context_file, compute_next_cron_execution_in_tz,
}

module _ (env : Env) (b : Broadcast) (timezone now : String) (s : ScheduledPrompt)
    (r : ScheduleRow) where
  -- The row of the schedule has failed with a text.
  abbrev pub HasFailed : String → Db → Type 0
  HasFailed error db = row_of s.id db ≡ some (failed_row error r)

  -- The row of the schedule counts one more execution, with its next time.
  abbrev pub WasExecuted : Option String → Db → Type 0
  WasExecuted next db = row_of s.id db ≡ some (executed now next r)

  -- A schedule without a cron expression is completed. A recurring one is active at its next time, or
  -- has failed with the reason that there is none.
  abbrev pub Finished : Db → Type 0
  Finished db =
      ((s.cron_expression ≡ none) × WasExecuted none db)
      ⊎ ((cron : String) × (s.cron_expression ≡ some cron)
          × (((next : String) × (compute_next_cron_execution_in_tz env cron timezone ≡ ok next)
                × WasExecuted (some next) db)
              ⊎ ((e : Error) × (compute_next_cron_execution_in_tz env cron timezone ≡ err e)
                  × HasFailed ("Failed to compute next execution: " ^^ error_text e) db)))

  -- Why a schedule is not published.
  abbrev pub Refused : Result (Option Channel) → env.State → String → Type 0
  Refused found st error =
      ((e : Error) × (found ≡ err e) × (error ≡ error_text e))
      ⊎ ((found ≡ ok none) × (error ≡ "Channel no longer exists"))
      ⊎ ((channel : Channel) × (e : Error) × (found ≡ ok (some channel))
          × (expand_slash_command env (write_context_file env channel now st) s.prompt
                channel.directory
              ≡ err e)
          × (error ≡ error_text e))

  -- Nothing was published and the schedule has failed with the reason, or its channel was found, its
  -- prompt was expanded, and its message was published once.
  abbrev pub Ends : Result (Option Channel) → env.State → MessageBus b → World env b → Type 0
  Ends found st bus (db, bus', st') =
      ((bus' ≡ bus) × (error : String) × Refused found st error × HasFailed error db)
      ⊎ ((channel : Channel) × (prompt : String) × (found ≡ ok (some channel))
          × (expand_slash_command env (write_context_file env channel now st) s.prompt
                channel.directory
              ≡ ok prompt)
          × (bus' ≡ publish_inbound b bus (schedule_message env b s prompt now))
          × Finished db)

  failed_lem :
      (error : String) (db : Db)
      → db.fault ≡ none
      → row_of s.id db ≡ some r
      → HasFailed error (mark_failed s.id error db).0
  failed_lem error db sound e =
      rw (mark_failed_eq s.id error db sound)
        (row_of-update_id (failed_row error) s.id db r (λ x. refl) e)

  executed_lem :
      (next : Option String) (db : Db)
      → db.fault ≡ none
      → row_of s.id db ≡ some r
      → WasExecuted next (mark_executed s.id next now db).0
  executed_lem next db sound e =
      rw (mark_executed_eq s.id next now db sound)
        (row_of-update_id (executed now next) s.id db r (executed-id now next) e)

  -- What `Ends` says once the message is published.
  abbrev Finishes : MessageBus b → World env b → Type 0
  Finishes bus (db, bus', st) = (bus' ≡ bus) × Finished db

  reschedule-Finishes :
      (cron : String) (result : Result String)
      → s.cron_expression ≡ some cron
      → compute_next_cron_execution_in_tz env cron timezone ≡ result
      → (db : Db) (bus : MessageBus b) (st : env.State) → db.fault ≡ none
      → row_of s.id db ≡ some r
      → Finishes bus (reschedule env b now s result (db, bus, st))
  unfolding reschedule
  reschedule-Finishes cron (ok next) recurring computed db bus st sound e =
      (refl, inr (cron, recurring, inl (next, computed, executed_lem (some next) db sound e)))
  reschedule-Finishes cron (err f) recurring computed db bus st sound e =
      (refl, inr (cron, recurring, inr (f, computed, failed_lem _ db sound e)))

  finish_with-Finishes :
      (c : Option String)
      → s.cron_expression ≡ c
      → (db : Db) (bus : MessageBus b) (st : env.State) → db.fault ≡ none
      → row_of s.id db ≡ some r
      → Finishes bus (finish_with env b timezone now s c (db, bus, st))
  unfolding finish_with
  finish_with-Finishes none once db bus st sound e =
      (refl, inl (once, executed_lem none db sound e))
  finish_with-Finishes (some cron) recurring db bus st sound e =
      reschedule-Finishes cron _ recurring refl db bus st sound e

  publish_prompt-Ends :
      (channel : Channel) (before : env.State) (prompt : Result String)
      → expand_slash_command env
          (write_context_file env channel now before)
          s.prompt
          channel.directory
        ≡ prompt
      → (db : Db) (bus : MessageBus b) (st : env.State) → db.fault ≡ none
      → row_of s.id db ≡ some r
      → Ends
          (ok (some channel))
          before
          bus
          (publish_prompt env b timezone now s prompt (db, bus, st))
  unfolding publish_prompt finish
  publish_prompt-Ends channel before (ok prompt) expanded db bus st sound e =
      let finished =
        finish_with-Finishes s.cron_expression refl db
          (publish_inbound b bus (schedule_message env b s prompt now)) st sound e in
      inr (channel, prompt, refl, expanded, finished.0, finished.1)
  publish_prompt-Ends channel before (err f) expanded db bus st sound e =
      inl
        (refl, error_text f, inr (inr (channel, f, refl, expanded, refl)), failed_lem _ db sound e)

  run_in-Ends :
      (found : Result (Option Channel)) (db : Db) (bus : MessageBus b) (st : env.State)
      → db.fault ≡ none
      → row_of s.id db ≡ some r
      → Ends found st bus (run_in env b timezone now s found (db, bus, st))
  unfolding run_in
  run_in-Ends (err f) db bus st sound e =
      inl (refl, error_text f, inl (f, refl, refl), failed_lem _ db sound e)
  run_in-Ends (ok none) db bus st sound e =
      inl (refl, "Channel no longer exists", inr (inl (refl, refl)), failed_lem _ db sound e)
  run_in-Ends (ok (some channel)) db bus st sound e =
      publish_prompt-Ends channel st _ refl db bus _ sound e

  -- Executing a schedule that the database holds, over a sound connection, ends in one of these ways.
  -- Either nothing is published and the schedule is marked failed, with the error of the look-up of its
  -- channel, with the text that the channel no longer exists, or with the error of the expansion of its
  -- prompt, whichever occurred. Or the channel is found, the prompt is expanded and its message is
  -- published exactly once, and then a schedule without a cron expression is marked executed and
  -- completed, a recurring one whose next time can be computed is marked executed and active at that
  -- time, and a recurring one whose next time cannot be computed is marked failed with that error.
  pub execute_schedule-Ends :
      (db : Db) (bus : MessageBus b) (st : env.State)
      → db.fault ≡ none
      → row_of s.id db ≡ some r
      → Ends
          (get_by_name env.unicode s.channel_name db).1
          st
          bus
          (execute_schedule env b timezone now s (db, bus, st))
  unfolding execute_schedule
  execute_schedule-Ends db bus st sound e = run_in-Ends _ db bus st sound e
