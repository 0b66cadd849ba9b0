-- ===== src/Tests/Chats.antt =====
-- The messages of a chat room (gorp-core/src/orchestrator.rs), their arguments and their chunks.
use gorp_rs.Text.{contains}
use gorp_rs.Base.{
  String, false, ◌≡◌, ◌≢◌, refl, List, [], ◌∷◌, ◌++◌, none, some, ok, err, arith, All, eq_iff,
}
use gorp_rs.Database.{Channel, execute, query}
use gorp_rs.Session.Channels.{get_by_room, validated}
use gorp_rs.Text.Chunks.{chunk_message}
use gorp_rs.Text.Chunks.Bounds.{Fits, chunk_message-Fits}
use gorp_rs.Commands.{parse_args, parse_message, command}
use gorp_rs.Commands.Quotes.{quoted_line, parse_args-quoted_line}
use gorp_rs.Warm.{cell, get_existing_session}
use gorp_rs.Warm.Sessions.{send_prompt_with_handle}
use gorp_rs.Warm.Laws.{refusal}
use gorp_rs.Warm.Prepare.{prepare_session_async}
use gorp_rs.Warm.Prepare.Races.{Ensures}
use gorp_rs.Warm.Prepare.Fresh.{IsNew}
use gorp_rs.Chat.{
  Platform, OrchestratorConfig, MessageContent, World, AgentEvent, text, session_invalid,
}
use gorp_rs.Chat.Commands.{handle_reset}
use gorp_rs.Chat.Commands.Reset.{handle_reset-prepare_session_async}
use gorp_rs.Chat.Turn.{Timing, handle_agent_message, process_agent_events}
use gorp_rs.Chat.Turn.Done.{Ready}
use gorp_rs.Chat.Turn.Handled.{handle_agent_message-Ready}
use gorp_rs.Chat.Turn.Lost.{process_agent_events-lost}
use gorp_rs.Tests.{pa, letters, clockwork, is_letter, stored_db}
use gorp_rs.Tests.Warm.{mock, cold, warm, evicting, evicting-none}

-- A room that keeps what is sent to it.
abbrev room : Platform mock
room = record {
  State = List MessageContent;
  is_self = λ s. false;
  get_room = λ id st. some id;
  send = λ id content st. (st ++ content ∷ [], ok tt);
  set_typing = λ id typing st. (st, ok tt);
  markdown_to_html = λ s. s;
  strip_function_calls = λ s. s;
  is_debug_enabled = λ d. false;
  input_preview = λ v. v;
  received = λ r. r;
}

abbrev config : OrchestratorConfig
config = record { bot_prefix = "!claude"; allowed_users = []; debug_mode = false }

abbrev quiet : World mock room
quiet = record { db = stored_db; warm = cold; chat = [] }

abbrev busy : World mock room
busy = record { db = stored_db; warm = warm; chat = [] }

abbrev times : Timing mock room letters clockwork.is_whitespace is_letter config
times = record { looked_at = 1; opened_at = 2; sent_at = 3; meanwhile = evicting }

abbrev answered : World mock room
answered =
    (handle_agent_message mock room letters clockwork.is_whitespace is_letter config times "u" "!pa"
      "hello" quiet).0

answered_example : Ready mock room "!pa" "pa" answered.db answered.warm
unfolding get_by_room query validated contains handle_agent_message execute
answered_example =
    handle_agent_message-Ready mock room letters clockwork.is_whitespace is_letter config times "u"
      "!pa" "hello" pa quiet refl refl (λ i s e k. absurd (ground (arith, e))) evicting-none refl

abbrev fresh_channel : Channel
fresh_channel = record pa { session_id = "u"; started = false }

reset_example :
    ((get_by_room "!pa" (handle_reset mock room "u" "!pa" busy).0.db).1 ≡ ok (some fresh_channel))
    × (get_existing_session mock "pa" (handle_reset mock room "u" "!pa" busy).0.warm ≡ none)
    × Ensures mock (IsNew mock fresh_channel (handle_reset mock room "u" "!pa" busy).0.warm) (
        prepare_session_async mock 1 2 evicting fresh_channel
          (handle_reset mock room "u" "!pa" busy).0.warm)
unfolding get_by_room query validated contains
reset_example =
    handle_reset-prepare_session_async mock room "u" "!pa" pa busy 1 2 evicting refl refl
      evicting-none (λ v. omega arith)

abbrev lost_events : List (AgentEvent String)
lost_events = text "I" ∷ session_invalid "gone" ∷ text "more" ∷ []

abbrev lost_world : World mock room
lost_world =
    (process_agent_events mock room letters clockwork.is_whitespace is_letter config "u" "!pa" pa 0
      lost_events busy).0

lost_example :
    ((get_by_room "!pa" lost_world.db).1 ≡ ok (some fresh_channel))
    × (get_existing_session mock "pa" lost_world.warm ≡ none)
    × ((send_prompt_with_handle mock 9 0 "s1" "hello" lost_world.warm).1 ≡ err (refusal mock))
unfolding get_by_room query validated contains cell
lost_example =
    process_agent_events-lost mock room config letters clockwork.is_whitespace is_letter "u" "!pa"
      pa 0 9 (record { handle = 0; session_id = "s1"; last_used = 5; invalidated = false })
      (text "I" ∷ []) (text "more" ∷ []) (session_invalid "gone") "s1" "hello" busy refl refl refl
      (refl, tt) refl

abbrev argument : String
argument = "it's here"

differs : argument ≢ ""
differs e = absurd (ground (arith, eq_iff argument "", e))

quoted_example : parse_args (quoted_line (argument ∷ [])) ≡ argument ∷ []
quoted_example = parse_args-quoted_line (argument ∷ []) ((differs, ground arith), tt)

-- The prefix is compared in bytes and the character behind it counted in characters.
prefix_skips_a_character :
    parse_message letters clockwork.is_whitespace is_letter "!éx go" "!é"
    ≡ some (command (record { name = "x"; args = "go" ∷ []; raw_args = "go" }))
unfolding parse_message
prefix_skips_a_character = refl

chunks_example : All (Fits clockwork.is_whitespace 6) ("one" ∷ "two" ∷ "longword" ∷ [])
unfolding chunk_message
chunks_example = chunk_message-Fits clockwork.is_whitespace 6 "one\ntwo longword"
