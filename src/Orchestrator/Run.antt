-- ===== src/Orchestrator/Run.antt =====
-- src/orchestrator.rs, run and handle: the messages of the bus, each taken once and handled as one step.
pub mod Served
use gorp_rs.Base.{ℕ, String, Bool, List, [], ◌∷◌, Option, none, some, if◌then◌else◌}
use gorp_rs.Database.{Db}
use gorp_rs.Session.Files.{FileSystem}
use gorp_rs.Bus.{Broadcast, MessageBus, BusMessage, SessionTarget, dispatch, session}
use gorp_rs.Scheduler.Execute.{Env}
use gorp_rs.Warm.{Agents, WarmSessionManager}
use gorp_rs.Chat.{AgentEvent}
use gorp_rs.Orchestrator.Dedup.{Seen, see, dedup_cap}
use gorp_rs.Orchestrator.Dispatch.{handle_dispatch}
use gorp_rs.Orchestrator.Dispatch
use gorp_rs.Orchestrator.Agent.{Timing, handle_agent_message, no_backend}

module _ (env : Env) (fs : FileSystem) (b : Broadcast) (a : Agents)
    (received : a.Receiver → List (AgentEvent a.Value)) (workspace_path : String) where
  -- The orchestrator, and what it works on.
  pub record Orchestrator : Type 0 where
    pub db : Db
    pub files : fs.State
    pub bus : MessageBus b
    pub warm_manager : Option (WarmSessionManager a)
    pub seen_ids : Seen

  -- A message with a fresh UUID and the times of its handling.
  abbrev pub Turn : Type 0
  Turn = String × Timing env.unicode b a received × BusMessage

  unfoldable pub agent_turn :
      Timing env.unicode b a received
      → String
      → BusMessage
      → Option (WarmSessionManager a)
      → Orchestrator
      → Orchestrator
  unfolding handle_agent_message no_backend
  agent_turn t name msg none o = record o {
    bus = no_backend env.unicode b a received t.answered_at name o.bus;
  }
  agent_turn t name msg (some warm) o =
      let w = handle_agent_message env.unicode b a received t name msg.body (o.db, o.bus, warm) in
      record o { db = w.0; bus = w.1; warm_manager = some w.2 }

  unfoldable pub handle_target : Turn → SessionTarget → Orchestrator → Orchestrator
  unfolding agent_turn handle_dispatch
  handle_target (uuid, t, msg) dispatch o =
      let before : Dispatch.World env fs b = record { db = o.db; files = o.files; bus = o.bus } in
      let w = handle_dispatch env fs b workspace_path uuid t.answered_at msg before in
      record o { db = w.db; files = w.files; bus = w.bus }
  handle_target (uuid, t, msg) (session name) o = agent_turn t name msg o.warm_manager o

  unfoldable pub handle : Turn → Orchestrator → Orchestrator
  unfolding handle_target
  handle (uuid, t, msg) o = handle_target (uuid, t, msg) msg.session_target o

  -- One round of the loop.
  unfoldable pub receive : Turn → Orchestrator → Orchestrator
  unfolding see handle
  receive (uuid, t, msg) o =
      let seen = see dedup_cap msg.id o.seen_ids in
      let remembered = record o { seen_ids = seen.0 } in
      if seen.1 then handle (uuid, t, msg) remembered else remembered

  unfoldable pub run : List Turn → Orchestrator → Orchestrator
  unfolding receive
  run [] o = o
  run (turn ∷ turns) o = run turns (receive turn o)
