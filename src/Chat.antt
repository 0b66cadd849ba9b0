-- ===== src/Chat.antt =====
-- gorp-core/src/orchestrator.rs: a chat message is a command, or a prompt for the agent of its room. The
-- metrics are not modelled.
pub mod Commands
pub mod Turn
use gorp_rs.Base.{
  String, Bool, List, Option, none, some, Result, ok, err, Error, ◌==◌, ◌||◌, if◌then◌else◌,
}
use gorp_rs.Database.{Db, Op}
use gorp_rs.Warm.{Agents, WarmSessionManager}

-- gorp-core/src/traits.rs; attachments are never sent here.
pub data MessageContent : Type 0 where
  plain : String → MessageContent
  html : String → String → MessageContent

pub data HandleResult : Type 0 where
  handled ignored : HandleResult
  failed : String → HandleResult

-- gorp-agent/src/event.rs, without the fields that nothing here reads.
pub data ErrorCode : Type 0 where
  timeout rate_limited auth_failed session_orphaned tool_failed permission_denied backend_error
        unknown :
      ErrorCode

pub data AgentEvent (Value : Type 0) : Type 0 where
  text : String → AgentEvent Value
  tool_start : String → Value → AgentEvent Value
  tool_progress tool_end : AgentEvent Value
  result : String → AgentEvent Value
  error : ErrorCode → String → AgentEvent Value
  session_invalid : String → AgentEvent Value
  session_changed : String → AgentEvent Value
  custom : String → AgentEvent Value

-- A chat interface with rooms, which are known by their IDs; Markdown, the regular expressions of
-- `strip_function_calls`, the file that enables debug messages, the preview of a tool's input, and what
-- an EventReceiver yields until it ends.
pub record Platform (a : Agents) : Type 1 where
  pub State : Type 0
  pub is_self : String → Bool
  pub get_room : String → State → Option String
  pub send : String → MessageContent → State → State × Result (Unit {0})
  pub set_typing : String → Bool → State → State × Result (Unit {0})
  pub markdown_to_html : String → String
  pub strip_function_calls : String → String
  pub is_debug_enabled : String → Bool
  pub input_preview : a.Value → String
  pub received : a.Receiver → List (AgentEvent a.Value)

pub record OrchestratorConfig : Type 0 where
  pub bot_prefix : String
  pub allowed_users : List String
  pub debug_mode : Bool

pub record World (a : Agents) (p : Platform a) : Type 0 where
  pub db : Db
  pub warm : WarmSessionManager a
  pub chat : p.State

-- A step that may fail leaves a world behind all the same.
abbrev pub Act : Type 0 → Type 0 → Type 0
Act W A = W → W × Result A

infixl 5 ◌>>=◌ ◌>>◌
abbrev pub ◌>>=◌ : {W A B : Type 0} → Act W A → (A → Act W B) → Act W B
◌>>=◌ m f w = elim (m w).1 [ ok x ↦ f x (m w).0 | err e ↦ ((m w).0, err e) ]

abbrev pub ◌>>◌ : {W B : Type 0} → Act W (Unit {0}) → Act W B → Act W B
m >> k = m >>= λ _. k

abbrev pub return : {W A : Type 0} → A → Act W A
return x w = (w, ok x)

module _ (a : Agents) (p : Platform a) where
  abbrev pub W : Type 0
  W = World a p

  unfoldable pub on_db : {A : Type 0} → Op A → Act W A
  on_db m w = (record w { db = (m w.db).0 }, (m w.db).1)

  -- A failure that is only logged.
  unfoldable pub try_db : {A : Type 0} → Op A → Act W (Unit {0})
  try_db m w = (record w { db = (m w.db).0 }, ok tt)

  unfoldable pub on_warm : (WarmSessionManager a → WarmSessionManager a) → Act W (Unit {0})
  on_warm f w = (record w { warm = f w.warm }, ok tt)

  unfoldable pub send_content : String → MessageContent → Act W (Unit {0})
  send_content room content w =
      let sent = p.send room content w.chat in (record w { chat = sent.0 }, sent.1)

  abbrev pub reply : String → String → Act W (Unit {0})
  reply room body = send_content room (plain body)

  unfoldable pub set_typing : String → Bool → Act W (Unit {0})
  set_typing room typing w =
      let done = p.set_typing room typing w.chat in (record w { chat = done.0 }, done.1)
