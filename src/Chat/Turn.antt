-- ===== src/Chat/Turn.antt =====
-- gorp-core/src/orchestrator.rs: a prompt for the agent of a room, and the messages that reach it. A
-- message is handled as one step, but for what other tasks do to the manager while a session is opened
-- (`meanwhile`).
pub mod Laws
pub mod Done
pub mod Handled
pub mod Lost
use Prim.Native.String.{len}
use gorp_rs.Base.{
  ℕ, ◌≤◌, Char, String, Bool, true, false, not, ◌&&◌, ◌||◌, ◌==◌, leb, any, List, [], ◌∷◌, Option,
  none, some, Result, ok, err, Error, message, error_text, if◌then◌else◌,
}
use gorp_rs.Text.{Unicode, ◌^^◌}
use gorp_rs.Text.Chunks.{chunk_message}
use gorp_rs.Database.{Channel}
use gorp_rs.Session.Channels.{get_by_room, reset_orphaned_session, update_session_id, mark_started}
use gorp_rs.Warm.{Agents, WarmSessionManager, set_invalidated, set_session_id, evict}
use gorp_rs.Warm.Sessions.{send_prompt_with_handle}
use gorp_rs.Warm.Prepare.{prepare_session_async}
use gorp_rs.Commands.{Command, parse_message}
use gorp_rs.Commands
use gorp_rs.Chat.{
  Platform, OrchestratorConfig, HandleResult, handled, ignored, failed, Act, ◌>>=◌, ◌>>◌, return,
  World, on_db, try_db, on_warm, reply, set_typing, send_content, AgentEvent, text, tool_start,
  tool_progress, tool_end, result, error, session_invalid, session_changed, custom, ErrorCode,
  session_orphaned, MessageContent, html,
}
use gorp_rs.Chat
use gorp_rs.Chat.Commands.{handle_command}

-- MAX_CHUNK_SIZE
abbrev pub max_chunk_size : ℕ
max_chunk_size = 8000

-- How the events of a prompt end: with a response and the last new session ID, with a session that is
-- lost, or with an error.
pub data Outcome : Type 0 where
  finished : String → Option String → Outcome
  orphaned : Outcome
  agent_error : String → Outcome

abbrev pub is_orphaned : ErrorCode → Bool
is_orphaned session_orphaned = true
is_orphaned _ = false

module _ (a : Agents) (p : Platform a) where
  abbrev W : Type 0
  W = World a p

  abbrev pub Answer : Type 0
  Answer = Act W HandleResult

  abbrev tool_message : String → String → MessageContent
  tool_message name preview =
      if preview == ""
      then html ("Tool: " ^^ name) ("<code>" ^^ name ^^ "</code>")
      else html ("Tool: " ^^ name ^^ " - " ^^ preview)
          ("<code>" ^^ name ^^ "</code> - <code>" ^^ preview ^^ "</code>")

  -- A failure to send a notification is logged.
  unfoldable pub notify_tool : OrchestratorConfig → String → Channel → String → a.Value → W → W
  unfolding send_content
  notify_tool config room channel name input w =
      let content = tool_message name (p.input_preview input) in
      if config.debug_mode || p.is_debug_enabled channel.directory
      then (send_content a p room content w).0
      else w

  -- The loop over the events: `full_response` and `session_id_from_event` so far.
  unfoldable pub receive_events :
      OrchestratorConfig
      → String
      → Channel
      → List (AgentEvent a.Value)
      → String
      → Option String
      → W
      → W × Outcome
  unfolding notify_tool
  receive_events config room channel [] response changed w = (w, finished response changed)
  receive_events config room channel (text more ∷ events) response changed w =
      receive_events config room channel events (response ^^ more) changed w
  receive_events config room channel (tool_start name input ∷ events) response changed w =
      receive_events config room channel events response changed
        (notify_tool config room channel name input w)
  receive_events config room channel (tool_progress ∷ events) response changed w =
      receive_events config room channel events response changed w
  receive_events config room channel (tool_end ∷ events) response changed w =
      receive_events config room channel events response changed w
  receive_events config room channel (result final ∷ events) response changed w =
      (w, finished (if response == "" then final else response) changed)
  receive_events config room channel (error code reason ∷ events) response changed w =
      (w, if is_orphaned code then orphaned else agent_error reason)
  receive_events config room channel (session_invalid reason ∷ events) response changed w =
      (w, orphaned)
  receive_events config room channel (session_changed new_id ∷ events) response changed w =
      receive_events config room channel events response (some new_id) w
  receive_events config room channel (custom kind ∷ events) response changed w =
      receive_events config room channel events response changed w

  abbrev pub lost_text : String
  lost_text = "Session was reset (conversation data was lost). Please send your message again."

  -- The session of the channel is reset in the store (a failure is logged), invalidated and evicted.
  abbrev pub lost : String → String → Channel → ℕ → W → W
  lost uuid room channel i w = record w {
    db = (reset_orphaned_session uuid room w.db).0;
    warm = (evict a channel.channel_name (set_invalidated a true i w.warm)).0;
  }

  unfoldable pub handle_session_orphaned : String → String → Channel → ℕ → Answer
  unfolding send_content reset_orphaned_session set_invalidated evict
  handle_session_orphaned uuid room channel i w =
      (reply a p room lost_text >> return (failed "Session orphaned")) (lost uuid room channel i w)

  -- The new session ID goes to the store, and then to the warm session.
  unfoldable pub keep_changed : String → ℕ → Option String → W → W
  unfolding update_session_id set_session_id
  keep_changed room i none w = w
  keep_changed room i (some id) w =
      let stored = update_session_id room id w.db in
      elim stored.1 [
        | err e ↦ record w { db = stored.0 }
        | ok _ ↦ record w { db = stored.0; warm = set_session_id a id i w.warm }
      ]

  unfoldable pub send_chunks : String → List String → Act W (Unit {0})
  unfolding send_content
  send_chunks room [] = return tt
  send_chunks room (chunk ∷ chunks) = do
    send_content a p room (html chunk (p.markdown_to_html chunk))
    send_chunks room chunks

  module _ (u : Unicode) (is_whitespace is_alphabetic : Char → Bool)
      (config : OrchestratorConfig) where
    unfoldable pub send_response : String → String → Act W (Unit {0})
    unfolding send_chunks send_content chunk_message
    send_response room response =
        if leb (len response) max_chunk_size
        then send_content a p room (html response (p.markdown_to_html response))
        else send_chunks room (chunk_message is_whitespace max_chunk_size response)

    unfoldable pub respond : String → String → Answer
    unfolding on_db mark_started send_response
    respond room response = do
      on_db a p (mark_started room)
      send_response room (p.strip_function_calls response)
      return handled

    -- What follows the events.
    unfoldable pub conclude : String → String → Channel → ℕ → Outcome → Answer
    unfolding handle_session_orphaned keep_changed respond send_content
    conclude uuid room channel i orphaned w = handle_session_orphaned uuid room channel i w
    conclude uuid room channel i (agent_error reason) w =
        (reply a p room ("Agent error: " ^^ reason) >> return (failed reason)) w
    conclude uuid room channel i (finished response changed) w =
        if response == ""
        then (reply a p room "Agent finished without a response. Please try again."
              >> return (failed "No response from agent"))
            w
        else respond room response (keep_changed room i changed w)

    unfoldable pub process_agent_events :
        String → String → Channel → ℕ → List (AgentEvent a.Value) → Answer
    unfolding receive_events conclude
    process_agent_events uuid room channel i events w =
        let (w', outcome) = receive_events config room channel events "" none w in
        conclude uuid room channel i outcome w'

    -- A failure that is told to the room.
    unfoldable pub give_up : String → String → Error → Answer
    unfolding set_typing send_content
    give_up room intro e = do
      set_typing a p room false
      reply a p room (intro ^^ error_text e)
      return (failed (error_text e))

    -- The prompt is sent, or not.
    unfoldable pub answered : String → String → Channel → ℕ → Result a.Receiver → Answer
    unfolding process_agent_events set_typing give_up
    answered uuid room channel i (err e) w = give_up room "Failed to send prompt: " e w
    answered uuid room channel i (ok receiver) w =
        let processed = process_agent_events uuid room channel i (p.received receiver) w in
        let stopped = set_typing a p room false processed.0 in
        elim stopped.1 [ ok _ ↦ (stopped.0, processed.1) | err e ↦ (stopped.0, err e) ]

    -- The session is prepared, or not.
    unfoldable pub prompted :
        ℕ → String → String → String → Channel → Result (ℕ × String × Bool) → Answer
    unfolding answered give_up update_session_id send_prompt_with_handle
    prompted sent uuid room body channel (err e) w = give_up room "Failed to prepare session: " e w
    prompted sent uuid room body channel (ok (i, session_id, is_new)) w =
        let stored = if is_new then (update_session_id room session_id w.db).0 else w.db in
        let delivered = send_prompt_with_handle a sent i session_id body w.warm in
        answered uuid room channel i delivered.1 (record w { db = stored; warm = delivered.0 })

    -- The times of the look-up, of the new session and of the prompt, and what others do meanwhile.
    pub record Timing : Type 0 where
      pub looked_at : ℕ
      pub opened_at : ℕ
      pub sent_at : ℕ
      pub meanwhile : WarmSessionManager a → WarmSessionManager a

    unfoldable pub ask_agent : Timing → String → String → String → Channel → Answer
    unfolding prompted prepare_session_async
    ask_agent t uuid room body channel w =
        let ready = prepare_session_async a t.looked_at t.opened_at t.meanwhile channel w.warm in
        prompted t.sent_at uuid room body channel ready.1 (record w { warm = ready.0 })

    unfoldable pub agent_message_found : Timing → String → String → String → Option Channel → Answer
    unfolding ask_agent set_typing send_content
    agent_message_found t uuid room body none = do
      reply a p room "No channel configured for this room. Use !help for setup instructions."
      return handled
    agent_message_found t uuid room body (some channel) = do
      set_typing a p room true
      ask_agent t uuid room body channel

    unfoldable pub handle_agent_message : Timing → String → String → String → Answer
    unfolding on_db get_by_room agent_message_found
    handle_agent_message t uuid room body = do
      found ← on_db a p (get_by_room room)
      agent_message_found t uuid room body found

    -- None where the parsing panics.
    unfoldable pub handle_parsed :
        Timing
        → String
        → String
        → Option Commands.ParseResult
        → W
        → Option (W × Result HandleResult)
    unfolding handle_command handle_agent_message
    handle_parsed t uuid room none w = none
    handle_parsed t uuid room (some Commands.ignore) w = some (w, ok ignored)
    handle_parsed t uuid room (some (Commands.command cmd)) w =
        some (handle_command a p config uuid room cmd w)
    handle_parsed t uuid room (some (Commands.message body)) w =
        some (handle_agent_message t uuid room body w)

    unfoldable pub handle_message :
        Timing → String → String → String → String → W → Option (W × Result HandleResult)
    unfolding parse_message handle_parsed
    handle_message t uuid sender room_id body w =
        let parsed = parse_message u is_whitespace is_alphabetic body config.bot_prefix in
        if p.is_self sender
        then some (w, ok ignored)
        else if not (any (λ x. true) config.allowed_users)
            || any (λ x. x == sender) config.allowed_users
        then elim (p.get_room room_id w.chat) [
          | none ↦ some (w, ok ignored)
          | some room ↦ handle_parsed t uuid room parsed w
        ]
        else some (w, ok ignored)
