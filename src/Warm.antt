-- ===== src/Warm.antt =====
-- gorp-core/src/warm_session.rs: the agent handles that are kept alive, one for each channel. An
-- `Arc<Mutex<WarmSession>>` is an index into a list of cells, and `held` tells which of the mutexes
-- are locked; a step that waits for a mutex is taken when it is free.
pub mod Sessions
pub mod Laws
pub mod Prepare
pub mod Entries
pub mod Steps
use gorp_rs.Base.{
  ℕ, zero, suc, ◌-◌, String, Bool, true, false, not, ◌&&◌, ◌||◌, ◌==◌, ltb, eqb, List, [], ◌∷◌,
  ◌++◌, any, keep, length, Option, none, some, Result, ok, err, Error, message, is_some, ◌>>=◌,
  if◌then◌else◌, find_key, put, without,
}
use gorp_rs.Database.{Channel}

-- What `tokio::time::timeout` gives.
pub data Reply {ℓ} (A : Type ℓ) : Type ℓ where
  replied : Result A → Reply A
  timed_out : Reply A

-- An AgentHandle and an AgentRegistry (gorp-agent), with the JSON values of their configuration and
-- `canonicalize` of the file system.
pub record Agents : Type 1 where
  pub State : Type 0
  pub Handle : Type 0
  pub Receiver : Type 0
  pub Registry : Type 0
  pub Value : Type 0
  pub McpServerConfig : Type 0
  pub text : String → Value
  pub number : ℕ → Value
  pub to_value : List McpServerConfig → Result Value
  pub canonicalize : State → String → Option String
  pub default_registry : Registry
  pub create : Registry → String → List (String × Value) → State → State × Result Handle
  pub load_session : Handle → String → State → State × Reply (Unit {0})
  pub new_session : Handle → State → State × Reply String
  pub prompt : Handle → String → String → State → State × Result Receiver

module _ (a : Agents) where
  open a use {
    State, Handle, Receiver, Registry, Value, McpServerConfig, text, number, to_value, canonicalize,
    default_registry, create, load_session, new_session, prompt,
  }

  pub record WarmConfig : Type 0 where
    pub keep_alive_duration : ℕ
    pub pre_warm_lead_time : ℕ
    pub agent_binary : String
    pub backend_type : String
    pub model : Option String
    pub max_tokens : Option ℕ
    pub global_system_prompt_path : Option String
    pub mcp_servers : List McpServerConfig

  pub record WarmSession : Type 0 where
    pub handle : Handle
    pub session_id : String
    pub last_used : ℕ
    pub invalidated : Bool

  -- The manager, with the cells that its handles and those of its callers point to.
  pub record WarmSessionManager : Type 0 where
    pub sessions : List (String × ℕ)
    pub config : WarmConfig
    pub registry : Registry
    pub cells : List WarmSession
    pub held : List ℕ
    pub agents : State

  -- The cell of a handle, and a write to it.
  unfoldable pub cell : ℕ → List WarmSession → Option WarmSession
  cell i [] = none
  cell zero (s ∷ cells) = some s
  cell (suc i) (s ∷ cells) = cell i cells

  unfoldable pub write_cell : (WarmSession → WarmSession) → ℕ → List WarmSession → List WarmSession
  write_cell f i [] = []
  write_cell f zero (s ∷ cells) = f s ∷ cells
  write_cell f (suc i) (s ∷ cells) = s ∷ write_cell f i cells

  abbrev pub is_held : ℕ → WarmSessionManager → Bool
  is_held i w = any (eqb i) w.held

  unfoldable pub new : WarmConfig → State → WarmSessionManager
  new config agents = record {
    sessions = [];
    config = config;
    registry = default_registry;
    cells = [];
    held = [];
    agents = agents;
  }

  unfoldable pub set_invalidated : Bool → ℕ → WarmSessionManager → WarmSessionManager
  unfolding write_cell
  set_invalidated invalidated i w = record w {
    cells = write_cell (λ s. record s { invalidated = invalidated }) i w.cells;
  }

  unfoldable pub set_session_id : String → ℕ → WarmSessionManager → WarmSessionManager
  unfolding write_cell
  set_session_id id i w = record w {
    cells = write_cell (λ s. record s { session_id = id }) i w.cells;
  }

  -- `last_used = Instant::now()`
  unfoldable pub touch : ℕ → ℕ → WarmSessionManager → WarmSessionManager
  unfolding write_cell
  touch now i w = record w { cells = write_cell (λ s. record s { last_used = now }) i w.cells }

  -- What `cleanup_stale` retains. `Instant::duration_since` stops at 0.
  unfoldable pub stays : ℕ → WarmSessionManager → String × ℕ → Bool
  unfolding cell
  stays now w (name, i) = is_held i w || (elim (cell i w.cells) [
    | none ↦ true
    | some s ↦ not (ltb w.config.keep_alive_duration (now - s.last_used))
  ])

  unfoldable pub cleanup_stale : ℕ → WarmSessionManager → WarmSessionManager
  unfolding stays
  cleanup_stale now w = record w { sessions = keep (stays now w) w.sessions }

  abbrev pub get_existing_session : String → WarmSessionManager → Option ℕ
  get_existing_session channel_name w = find_key channel_name w.sessions

  abbrev pub has_session : String → WarmSessionManager → Bool
  has_session channel_name w = is_some (find_key channel_name w.sessions)

  unfoldable pub insert_session : String → ℕ → WarmSessionManager → WarmSessionManager × ℕ
  insert_session channel_name handle w = elim (find_key channel_name w.sessions) [
    | some existing ↦ (w, existing)
    | none ↦ (record w { sessions = put channel_name handle w.sessions }, handle)
  ]

  unfoldable pub evict : String → WarmSessionManager → WarmSessionManager × Bool
  evict channel_name w = (
    record w { sessions = without channel_name w.sessions },
    is_some (find_key channel_name w.sessions),
  )

  unfoldable pub invalidate_session : String → WarmSessionManager → WarmSessionManager × Option ℕ
  unfolding set_invalidated
  invalidate_session channel_name w =
      let gone = record w { sessions = without channel_name w.sessions } in
      elim (find_key channel_name w.sessions) [
        | none ↦ (w, none)
        | some i ↦ (if is_held i w then gone else set_invalidated true i gone, some i)
      ]
