-- ===== src/Orchestrator/Dispatch.antt =====
-- src/orchestrator.rs, lines 244-462 and 600-614: the answers to DISPATCH commands. A command is handled
-- as one step.
pub mod Agreement
use Prim.Native.String.{len, slice}
use gorp_rs.Base.{
  ℕ, suc, ◌+◌, String, Bool, true, false, not, ◌==◌, List, [], ◌∷◌, Option, none, some, Result, ok,
  err, Error, error_text, if◌then◌else◌, length, keep, map, min,
}
use gorp_rs.Text.{◌^^◌}
use gorp_rs.Text.Decimal.{show_usize}
use gorp_rs.Database.{Db, Channel}
use gorp_rs.Session.Files.{FileSystem}
use gorp_rs.Session.Channels.{create_channel, delete_channel, get_by_name, list_all}
use gorp_rs.Session.Bindings.{list_bindings_for_session}
use gorp_rs.Session.Bindings
use gorp_rs.Bus.{
  Broadcast, MessageBus, BusMessage, BusResponse, MessageSource, platform, web, api, session,
  system_notice, publish_inbound, publish_response,
}
use gorp_rs.Bus
use gorp_rs.Scheduler.Execute.{Env}
use gorp_rs.Orchestrator.Commands.{
  DispatchCommand, create, delete, list, status, join, leave, tell, read, broadcast, help, unknown,
  parse,
}

-- `extract_source_ids`
unfoldable pub extract_source_ids : MessageSource → String × String
extract_source_ids (platform platform_id channel_id) = (platform_id, channel_id)
extract_source_ids (web connection_id) = ("web", connection_id)
extract_source_ids (api token_hint) = ("api", token_hint)

abbrev pub help_text : String
help_text =
    "DISPATCH commands:\n\n!create <name> [workspace]  — Create a named agent session\n"
    ^^ "!delete <name>              — Delete an agent session\n"
    ^^ "!list                       — List all active sessions\n"
    ^^ "!status <name>              — Show session status details\n"
    ^^ "!join <name>                — Bind this channel to a session\n"
    ^^ "!leave                      — Unbind this channel from its session\n"
    ^^ "!tell <session> <message>   — Inject a message into another session\n"
    ^^ "!read <session> [count]     — Read recent messages from a session\n"
    ^^ "!broadcast <message>        — Send a message to all active sessions\n"
    ^^ "!help                       — Show this help"

-- `lines.join("\n")`
unfoldable pub join_lines : List String → String
join_lines [] = ""
join_lines (l ∷ []) = l
join_lines (l ∷ k ∷ ls) = l ^^ "\n" ^^ join_lines (k ∷ ls)

abbrev show_bool : Bool → String
show_bool b = if b then "true" else "false"

abbrev list_line : Channel → String
list_line ch =
    "  "
    ^^ (if ch.started then "*" else " ")
    ^^ " "
    ^^ ch.channel_name
    ^^ " (session: "
    ^^ slice ch.session_id 0 (min 8 (len ch.session_id))
    ^^ ")"

unfoldable pub list_text : Result (List Channel) → String
unfolding join_lines show_usize
list_text (err e) = "Failed to list sessions: " ^^ error_text e
list_text (ok []) = "No active sessions. Use !create <name> to create one."
list_text (ok (ch ∷ channels)) =
    "Active sessions:\n"
    ^^ join_lines (map list_line (ch ∷ channels))
    ^^ "\n\n"
    ^^ show_usize (length (ch ∷ channels))
    ^^ " session(s) total. (* = started)"

abbrev bindings_text : Result (List (String × String)) → String
bindings_text (err e) = "    (none)"
bindings_text (ok []) = "    (none)"
bindings_text (ok (k ∷ ks)) = join_lines (map (λ b. "    " ^^ b.0 ^^ ":" ^^ b.1) (k ∷ ks))

unfoldable pub status_text :
    String → Result (Option Channel) → Result (List (String × String)) → String
unfolding join_lines
status_text name (err e) bindings = "Failed to get status for '" ^^ name ^^ "': " ^^ error_text e
status_text name (ok none) bindings = "Session '" ^^ name ^^ "' not found"
status_text name (ok (some ch)) bindings =
    "Session '"
    ^^ ch.channel_name
    ^^ "':\n  Session ID: "
    ^^ ch.session_id
    ^^ "\n  Directory: "
    ^^ ch.directory
    ^^ "\n  Started: "
    ^^ show_bool ch.started
    ^^ "\n  Created: "
    ^^ ch.created_at
    ^^ "\n  Bindings:\n"
    ^^ bindings_text bindings

unfoldable pub read_text : String → Result (Option Channel) → String
read_text name (err e) = "Error: " ^^ error_text e
read_text name (ok none) = "Session '" ^^ name ^^ "' not found"
read_text name (ok (some ch)) =
    "Session '"
    ^^ ch.channel_name
    ^^ "': session_id="
    ^^ ch.session_id
    ^^ ", started="
    ^^ show_bool ch.started
    ^^ ", created_at="
    ^^ ch.created_at
    ^^ "\n(Message history not yet available)"

abbrev created_text : String → Result Channel → String
created_text name (ok ch) =
    "Session '" ^^ ch.channel_name ^^ "' created (session_id: " ^^ ch.session_id ^^ ")"
created_text name (err e) = "Failed to create session '" ^^ name ^^ "': " ^^ error_text e

abbrev deleted_text : String → Result (Unit {0}) → String
deleted_text name (ok _) = "Session '" ^^ name ^^ "' deleted"
deleted_text name (err e) = "Failed to delete session '" ^^ name ^^ "': " ^^ error_text e

abbrev bound_text : String → Result (Unit {0}) → String
bound_text name (ok _) =
    "Channel bound to session '" ^^ name ^^ "'. Messages here will now route to this agent."
bound_text name (err e) = "Failed to bind channel: " ^^ error_text e

abbrev unbound_text : Result (Unit {0}) → String
unbound_text (ok _) = "Channel unbound. Messages here will now route to DISPATCH."
unbound_text (err e) = "Failed to unbind channel: " ^^ error_text e

module _ (env : Env) (fs : FileSystem) (b : Broadcast) where
  -- What a command reads and changes: the session store, its file system and the bus.
  pub record World : Type 0 where
    pub db : Db
    pub files : fs.State
    pub bus : MessageBus b

  -- A command ends with the text of its answer.
  abbrev pub Answer : Type 0
  Answer = World × String

  unfoldable pub create_session : String → String → String → String → World → Answer
  unfolding create_channel
  create_session workspace_path uuid now name w =
      let made =
        create_channel fs env.unicode workspace_path name ("bus:" ^^ name) uuid now w.db w.files in
      (record w { db = made.0; files = made.1 }, created_text name made.2)

  -- Each channel that is bound to a deleted session is unbound in the store and in the bus.
  unfoldable pub unbind_all : List (String × String) → World → World
  unbind_all [] w = w
  unbind_all ((pid, cid) ∷ bindings) w = unbind_all bindings (record w {
    db = (Bindings.unbind_channel pid cid w.db).0;
    bus = Bus.unbind_channel b w.bus pid cid;
  })

  abbrev pub unbind_listed : Result (List (String × String)) → World → World
  unbind_listed (ok bindings) w = unbind_all bindings w
  unbind_listed (err e) w = w

  unfoldable pub delete_session : String → World → Answer
  unfolding unbind_all delete_channel list_bindings_for_session
  delete_session name w =
      let w' = unbind_listed (list_bindings_for_session name w.db).1 w in
      let gone = delete_channel name w'.db in (record w' { db = gone.0 }, deleted_text name gone.1)

  -- `found` is what the look-up of the session gave.
  unfoldable pub join_found : MessageSource → String → Result (Option Channel) → World → Answer
  unfolding extract_source_ids
  join_found source name (err e) w = (w, "Error: " ^^ error_text e)
  join_found source name (ok none) w =
      (w, "Session '" ^^ name ^^ "' not found. Create it first with !create " ^^ name)
  join_found source name (ok (some ch)) w =
      let ids = extract_source_ids source in
      let stored = Bindings.bind_channel ids.0 ids.1 name w.db in
      (
        record w { db = stored.0; bus = Bus.bind_channel b w.bus ids.0 ids.1 name },
        bound_text name stored.1,
      )

  unfoldable pub leave_session : MessageSource → World → Answer
  unfolding extract_source_ids
  leave_session source w =
      let ids = extract_source_ids source in
      let stored = Bindings.unbind_channel ids.0 ids.1 w.db in
      (
        record w { db = stored.0; bus = Bus.unbind_channel b w.bus ids.0 ids.1 },
        unbound_text stored.1,
      )

  -- A message for a session, in the name of the sender of a command.
  abbrev pub forwarded : BusMessage → String → String → String → String → BusMessage
  forwarded msg suffix name body now = record msg {
    id = msg.id ^^ suffix;
    session_target = session name;
    body = body;
    timestamp = now;
  }

  unfoldable pub tell_found :
      BusMessage → String → String → String → Result (Option Channel) → World → Answer
  unfolding publish_inbound
  tell_found msg now name message (err e) w = (w, "Error: " ^^ error_text e)
  tell_found msg now name message (ok none) w = (w, "Session '" ^^ name ^^ "' not found")
  tell_found msg now name message (ok (some ch)) w = (
    record w { bus = publish_inbound b w.bus (forwarded msg "-tell" name message now) },
    "Message sent to session '" ^^ name ^^ "'",
  )

  -- One message for each channel that is no DISPATCH room.
  unfoldable pub publish_all :
      BusMessage → String → String → List Channel → MessageBus b → MessageBus b
  unfolding publish_inbound
  publish_all msg now message [] bus = bus
  publish_all msg now message (ch ∷ channels) bus =
      let sent =
        publish_inbound b bus
          (forwarded msg ("-bc-" ^^ ch.channel_name) ch.channel_name message now) in
      publish_all msg now message channels (if ch.is_dispatch_room then bus else sent)

  unfoldable pub broadcast_to :
      BusMessage → String → String → Result (List Channel) → World → Answer
  unfolding publish_all show_usize
  broadcast_to msg now message (err e) w = (w, "Failed to broadcast: " ^^ error_text e)
  broadcast_to msg now message (ok channels) w = (
    record w { bus = publish_all msg now message channels w.bus },
    "Message broadcast to "
        ^^ show_usize (length (keep (λ ch. not ch.is_dispatch_room) channels))
        ^^ " session(s)",
  )

  abbrev pub found : String → World → Result (Option Channel)
  found name w = (get_by_name env.unicode name w.db).1

  -- `uuid` and `now` are fresh.
  unfoldable pub run_command :
      String → String → String → BusMessage → DispatchCommand → World → Answer
  run_command workspace_path uuid now msg help w = (w, help_text)
  run_command workspace_path uuid now msg (create name workspace) w =
      create_session workspace_path uuid now name w
  run_command workspace_path uuid now msg (delete name) w = delete_session name w
  run_command workspace_path uuid now msg list w = (w, list_text (list_all w.db).1)
  run_command workspace_path uuid now msg (status name) w =
      (w, status_text name (found name w) (list_bindings_for_session name w.db).1)
  run_command workspace_path uuid now msg (join name) w =
      join_found msg.source name (found name w) w
  run_command workspace_path uuid now msg leave w = leave_session msg.source w
  run_command workspace_path uuid now msg (tell name message) w =
      tell_found msg now name message (found name w) w
  run_command workspace_path uuid now msg (read name count) w = (w, read_text name (found name w))
  run_command workspace_path uuid now msg (broadcast message) w =
      broadcast_to msg now message (list_all w.db).1 w
  run_command workspace_path uuid now msg (unknown text) w =
      (w, "Unknown command: \"" ^^ text ^^ "\". Type !help for a list of available commands.")

  -- The response to a command.
  abbrev pub notice : String → String → BusResponse
  notice text now = record {
    session_name = "DISPATCH";
    content = system_notice text;
    timestamp = now;
  }

  unfoldable pub handle_dispatch : String → String → String → BusMessage → World → World
  unfolding publish_response
  handle_dispatch workspace_path uuid now msg w =
      let answer = run_command workspace_path uuid now msg (parse env msg.body) w in
      record answer.0 { bus = publish_response b answer.0.bus (notice answer.1 now) }
