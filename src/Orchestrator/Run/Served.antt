-- ===== src/Orchestrator/Run/Served.antt =====
-- src/server.rs, lines 120-135, and src/orchestrator.rs: the bus and the stored bindings from a start
-- through any number of messages.
use gorp_rs.Base.{
  ℕ, String, Bool, true, false, ◌≡◌, List, [], ◌∷◌, Option, none, some, ok, if◌then◌else◌,
}
use gorp_rs.Database.{Db}
use gorp_rs.Session.Files.{FileSystem}
use gorp_rs.Session.Bindings.{resolve_binding, list_all_bindings}
use gorp_rs.Session.Bindings.Laws.{lookup, resolve_binding_eq}
use gorp_rs.Bus.{
  Broadcast, BusMessage, SessionTarget, dispatch, session, resolve_target, load_bindings, new,
}
use gorp_rs.Bus.Restart.{Distinct, target_of, restart-agrees}
use gorp_rs.Scheduler.Execute.{Env}
use gorp_rs.Warm.{Agents, WarmSessionManager}
use gorp_rs.Chat.{AgentEvent}
use gorp_rs.Orchestrator.Dedup.{see, dedup_cap}
use gorp_rs.Orchestrator.Dispatch.Agreement.{Agree, handle_dispatch-Agrees}
use gorp_rs.Orchestrator.Agent.{Timing}
use gorp_rs.Orchestrator.Agent.Agreement.{handle_agent_message-Agreed, no_backend-Agree}
use gorp_rs.Orchestrator.Run.{Orchestrator, Turn, agent_turn, handle_target, handle, receive, run}

module _ (env : Env) (fs : FileSystem) (b : Broadcast) (a : Agents)
    (received : a.Receiver → List (AgentEvent a.Value)) (workspace_path : String) where
  abbrev O : Type 0
  O = Orchestrator env fs b a received workspace_path

  abbrev Served : O → Type 0
  Served o = Agree env fs b o.db o.bus

  agent_turn-Served :
      (t : Timing env.unicode b a received) (name : String) (msg : BusMessage)
      (m : Option (WarmSessionManager a)) (o : O)
      → Served o
      → Served (agent_turn env fs b a received workspace_path t name msg m o)
  unfolding agent_turn
  agent_turn-Served t name msg none o h =
      no_backend-Agree env fs b a received t.answered_at name o.db o.bus h
  agent_turn-Served t name msg (some warm) o h =
      handle_agent_message-Agreed env fs b a received t name msg.body (o.db, o.bus, warm) h

  handle_target-Served :
      (uuid : String) (t : Timing env.unicode b a received) (msg : BusMessage)
      (target : SessionTarget) (o : O)
      → Served o
      → Served (handle_target env fs b a received workspace_path (uuid, t, msg) target o)
  unfolding handle_target
  handle_target-Served uuid t msg dispatch o h =
      handle_dispatch-Agrees env fs b workspace_path uuid t.answered_at msg
        (record { db = o.db; files = o.files; bus = o.bus }) h
  handle_target-Served uuid t msg (session name) o h =
      agent_turn-Served t name msg o.warm_manager o h

  if-Served : (new : Bool) (x y : O) → Served x → Served y → Served (if new then x else y)
  if-Served true x y h k = h
  if-Served false x y h k = k

  receive-Served :
      (uuid : String) (t : Timing env.unicode b a received) (msg : BusMessage) (o : O)
      → Served o
      → Served (receive env fs b a received workspace_path (uuid, t, msg) o)
  unfolding receive handle
  receive-Served uuid t msg o h =
      let seen = see dedup_cap msg.id o.seen_ids in
      let remembered = record o { seen_ids = seen.0 } in
      if-Served seen.1 (handle env fs b a received workspace_path (uuid, t, msg) remembered)
        remembered (handle_target-Served uuid t msg msg.session_target remembered h) h

  run-Served :
      (turns : List (Turn env fs b a received workspace_path)) (o : O)
      → Served o
      → Served (run env fs b a received workspace_path turns o)
  unfolding run
  run-Served [] o h = h
  run-Served ((uuid, t, msg) ∷ turns) o h =
      run-Served turns (receive env fs b a received workspace_path (uuid, t, msg) o)
        (receive-Served uuid t msg o h)

  -- A new orchestrator, with a bus that was just filled with `bindings`.
  abbrev pub restarted :
      ℕ → List (String × String × String) → Db → fs.State → Option (WarmSessionManager a) → O
  restarted capacity bindings db files warm = record {
    db = db;
    files = files;
    bus = load_bindings b (new b capacity) bindings;
    warm_manager = warm;
    seen_ids = record { set = []; order = [] };
  }

  -- A server that starts over a sound connection with all stored bindings, whose primary key holds, and
  -- then receives any messages, for DISPATCH and for agents, repeated or not, one after the other,
  -- routes every channel to the session that the store then resolves it to, and an unbound channel to
  -- DISPATCH.
  pub run-restarted :
      (capacity : ℕ) (bindings : List (String × String × String)) (db : Db) (files : fs.State)
      (warm : Option (WarmSessionManager a))
      (turns : List (Turn env fs b a received workspace_path)) (q d : String)
      → db.fault ≡ none
      → Distinct db.channel_bindings
      → (list_all_bindings db).1 ≡ ok bindings
      → let o =
          run env fs b a received workspace_path turns
            (restarted capacity bindings db files warm) in
        (found : Option String) × ((resolve_binding q d o.db).1 ≡ ok found)
        × (resolve_target b o.bus q d ≡ target_of found)
  run-restarted capacity bindings db files warm turns q d sound u all =
      let start = restarted capacity bindings db files warm in
      let o = run env fs b a received workspace_path turns start in
      let (kept, agree) = run-Served turns start (
        sound,
        λ q d.
            restart-agrees b capacity db q d bindings (lookup q d db.channel_bindings) u all
              (resolve_binding_eq q d db sound),
      ) in
      (lookup q d o.db.channel_bindings, resolve_binding_eq q d o.db kept, agree q d)
