-- ===== src/Chat/Commands.antt =====
-- gorp-core/src/orchestrator.rs: the standard commands of a room.
pub mod Reset
use gorp_rs.Base.{
  ℕ, String, Bool, ◌==◌, ◌||◌, List, [], ◌∷◌, Option, none, some, Result, ok, err, if◌then◌else◌,
}
use gorp_rs.Text.{◌^^◌}
use gorp_rs.Database.{Channel}
use gorp_rs.Session.Channels.{get_by_room, reset_orphaned_session, update_backend_type}
use gorp_rs.Warm.{Agents, invalidate_session}
use gorp_rs.Commands.{Command, first_arg, arg, get_arg}
use gorp_rs.Chat.{
  Platform, OrchestratorConfig, HandleResult, handled, Act, ◌>>=◌, ◌>>◌, return, World, on_db,
  on_warm, reply, send_content,
}

pub data BackendSubcommand : Type 0 where
  get list reset : BackendSubcommand
  set : String → BackendSubcommand

pub data StandardCommand : Type 0 where
  help status reset_channel : StandardCommand
  backend : BackendSubcommand → StandardCommand
  unknown : String → StandardCommand

unfoldable pub backend_set : Option String → BackendSubcommand
backend_set none = get
backend_set (some name) = set name

unfoldable pub backend_subcommand : Option String → Option String → BackendSubcommand
unfolding backend_set
backend_subcommand none second = get
backend_subcommand (some word) second =
    if word == "get"
    then get
    else if word == "list" || word == "ls"
    then list
    else if word == "set"
    then backend_set second
    else if word == "reset" || word == "clear"
    then reset
    else set word

unfoldable pub as_standard : Command → StandardCommand
unfolding backend_subcommand get_arg
as_standard cmd =
    if cmd.name == "help" || cmd.name == "h"
    then help
    else if cmd.name == "status" || cmd.name == "s"
    then status
    else if cmd.name == "reset" || cmd.name == "r"
    then reset_channel
    else if cmd.name == "backend" || cmd.name == "b"
    then backend (backend_subcommand (first_arg cmd) (arg 1 cmd))
    else unknown cmd.name

unfoldable pub help_text : String → String
help_text bot_prefix =
    "Available commands:\n- !help - Show this help\n- !status - Show channel status\n- !reset - Reset Claude session\n"
    ^^ "- !backend [list|set <type>] - Manage backend\n\nOr just type a message to chat with Claude.\n\nPrefix: "
    ^^ bot_prefix

abbrev backend_name : Channel → String
backend_name ch = elim ch.backend_type [ some b ↦ b | none ↦ "default" ]

unfoldable pub status_of : Option Channel → String
status_of none = "No channel configured for this room."
status_of (some ch) =
    "Channel: "
    ^^ ch.channel_name
    ^^ "\nSession: "
    ^^ ch.session_id
    ^^ "\nBackend: "
    ^^ backend_name ch
    ^^ "\nDirectory: "
    ^^ ch.directory

module _ (a : Agents) (p : Platform a) where
  abbrev pub Answer : Type 0
  Answer = Act (World a p) HandleResult

  abbrev answer : String → String → Answer
  answer room body = reply a p room body >> return handled

  unfoldable pub get_status : String → Act (World a p) String
  unfolding on_db get_by_room status_of
  get_status room = do found ← on_db a p (get_by_room room); return (status_of found)

  -- The warm session of a channel is invalidated.
  abbrev invalidate : Channel → Act (World a p) (Unit {0})
  invalidate ch = on_warm a p (λ m. (invalidate_session a ch.channel_name m).0)

  -- `found` is the channel of the room, `uuid` a fresh session ID.
  unfoldable pub reset_found : String → String → Option Channel → Answer
  unfolding on_db on_warm send_content reset_orphaned_session invalidate_session
  reset_found uuid room none = answer room "No channel to reset."
  reset_found uuid room (some ch) = do
    invalidate ch
    on_db a p (reset_orphaned_session uuid room)
    answer room "Session reset. Next message will start fresh."

  unfoldable pub handle_reset : String → String → Answer
  unfolding on_db get_by_room reset_found
  handle_reset uuid room = do found ← on_db a p (get_by_room room); reset_found uuid room found

  unfoldable pub backend_get : String → Option Channel → Answer
  unfolding send_content
  backend_get room none = answer room "No channel configured."
  backend_get room (some ch) = answer room ("Current backend: " ^^ backend_name ch)

  -- A change of the backend, and the answer to it.
  unfoldable pub backend_change : String → Option String → String → Option Channel → Answer
  unfolding on_db on_warm send_content update_backend_type invalidate_session
  backend_change room backend_type done none = answer room "No channel configured."
  backend_change room backend_type done (some ch) = do
    on_db a p (update_backend_type ch.channel_name backend_type)
    invalidate ch
    answer room done

  unfoldable pub handle_backend_command : String → BackendSubcommand → Answer
  unfolding on_db get_by_room backend_get backend_change send_content
  handle_backend_command room get = do found ← on_db a p (get_by_room room); backend_get room found
  handle_backend_command room list = answer room "Available backends: acp, mux, direct"
  handle_backend_command room (set name) = do
    found ← on_db a p (get_by_room room)
    backend_change room (some name) ("Backend changed to: " ^^ name) found
  handle_backend_command room reset = do
    found ← on_db a p (get_by_room room)
    backend_change room none "Backend reset to default." found

  unfoldable pub run_standard : OrchestratorConfig → String → String → StandardCommand → Answer
  unfolding get_status handle_reset handle_backend_command send_content help_text
  run_standard config uuid room help = answer room (help_text config.bot_prefix)
  run_standard config uuid room status = do told ← get_status room; answer room told
  run_standard config uuid room reset_channel = handle_reset uuid room
  run_standard config uuid room (backend sub) = handle_backend_command room sub
  run_standard config uuid room (unknown name) =
      answer room ("Unknown command: " ^^ name ^^ ". Try !help for available commands.")

  unfoldable pub handle_command : OrchestratorConfig → String → String → Command → Answer
  unfolding as_standard run_standard
  handle_command config uuid room cmd = run_standard config uuid room (as_standard cmd)
