-- ===== src/Tests/Warm.antt =====
-- The warm sessions of gorp-core/src/warm_session.rs on an agent that answers at once.
use gorp_rs.Base.{
  ℕ, suc, String, true, false, ◌≡◌, refl, List, [], ◌∷◌, none, some, ok, err, message,
}
use gorp_rs.Warm.{
  Agents, WarmConfig, WarmSession, WarmSessionManager, replied, cell, new, evict, cleanup_stale,
  invalidate_session, get_existing_session,
}
use gorp_rs.Warm.Sessions.{send_prompt_with_handle, get_or_create_session}
use gorp_rs.Warm.Laws.{
  cleanup_stale-get_existing_session, invalidate_session-send_prompt_with_handle, refusal,
  gone-none,
}
use gorp_rs.Warm.Prepare.{look, open_outside, prepare_session_async}
use gorp_rs.Warm.Prepare.Races.{
  prepare_session_async-get_existing_session, send_prompt_with_handle-prepare_session_async,
  prepare_session_async-set_invalidated,
}
use gorp_rs.Chat.{AgentEvent, text, result}
use gorp_rs.Tests.{pa}

-- It resumes no session, and each new session has the ID "s2".
abbrev pub mock : Agents
mock = record {
  State = ℕ;
  Handle = ℕ;
  Receiver = List (AgentEvent String);
  Registry = Unit {0};
  Value = String;
  McpServerConfig = String;
  text = λ s. s;
  number = λ n. "n";
  to_value = λ servers. ok "servers";
  canonicalize = λ st d. none;
  default_registry = tt;
  create = λ registry backend_type options st. (suc st, ok st);
  load_session = λ h id st. (st, replied (err (message "unknown session")));
  new_session = λ h st. (st, replied (ok "s2"));
  prompt = λ h id body st. (st, ok (text "hi" ∷ result "hi" ∷ []));
}

abbrev pub config : WarmConfig mock
config = record {
  keep_alive_duration = 10;
  pre_warm_lead_time = 5;
  agent_binary = "claude";
  backend_type = "mux";
  model = some "m";
  max_tokens = none;
  global_system_prompt_path = none;
  mcp_servers = [];
}

abbrev pub cold : WarmSessionManager mock
cold = record { sessions = []; config = config; registry = tt; cells = []; held = []; agents = 0 }

abbrev session_one : WarmSession mock
session_one = record { handle = 0; session_id = "s1"; last_used = 5; invalidated = false }

abbrev pub warm : WarmSessionManager mock
warm = record cold { sessions = ("pa", 0) ∷ []; cells = session_one ∷ [] }

-- Another task that evicts the session, or makes one.
abbrev pub evicting : WarmSessionManager mock → WarmSessionManager mock
evicting v = record v { sessions = (evict mock "pa" v).0.sessions }

abbrev racing : WarmSessionManager mock → WarmSessionManager mock
racing v = record warm { agents = v.agents }

pub evicting-none :
    (v : WarmSessionManager mock) → get_existing_session mock "pa" (evicting v) ≡ none
unfolding evict
evicting-none v = gone-none mock "pa" v

abbrev fresh_manager : WarmSessionManager mock
fresh_manager = (prepare_session_async mock 1 2 evicting pa cold).0

fresh_example :
    (s : WarmSession mock) × (get_existing_session mock "pa" fresh_manager ≡ some 0)
    × (cell mock 0 fresh_manager.cells ≡ some s)
    × (s.session_id ≡ "s2")
    × ((send_prompt_with_handle mock 3 0 "s2" "hello" fresh_manager).1
        ≡ ok (text "hi" ∷ result "hi" ∷ []))
unfolding prepare_session_async evict
fresh_example =
    send_prompt_with_handle-prepare_session_async mock 1 2 3 evicting pa "hello" cold
      (0, "s2", true) evicting-none refl

raced_example :
    get_existing_session mock "pa" (prepare_session_async mock 1 2 racing pa cold).0 ≡ some 0
unfolding prepare_session_async
raced_example =
    prepare_session_async-get_existing_session mock 1 2 racing pa cold (0, "s2", true) refl

abbrev stuck : WarmSessionManager mock
stuck = record warm { cells = record session_one { invalidated = true } ∷ [] }

stuck_example : (prepare_session_async mock 1 2 (λ v. v) pa stuck).1 ≡ ok (0, "s2", true)
unfolding cell open_outside
stuck_example =
    prepare_session_async-set_invalidated mock 1 2 0 pa (record session_one { invalidated = true })
      stuck (0, "s2", true) refl refl refl refl

abbrev made_warm : WarmSessionManager mock
made_warm = (get_or_create_session mock 1 2 pa (new mock config 0)).0

-- The session is looked up, and then idle for too long.
abbrev looked_up : WarmSessionManager mock
looked_up = (look mock 3 "pa" made_warm).0

abbrev cleaned_later : WarmSessionManager mock
cleaned_later = cleanup_stale mock 20 looked_up

stale_example : get_existing_session mock "pa" (cleanup_stale mock 20 warm) ≡ none
unfolding cell
stale_example =
    cleanup_stale-get_existing_session mock 20 0 "pa" session_one warm (refl, tt) refl refl

invalidated_example :
    (get_existing_session mock "pa" (invalidate_session mock "pa" warm).0 ≡ none)
    × ((send_prompt_with_handle mock 3 0 "s1" "hello" (invalidate_session mock "pa" warm).0).1
        ≡ err (refusal mock))
unfolding cell
invalidated_example =
    invalidate_session-send_prompt_with_handle mock 3 0 "pa" "s1" "hello" session_one warm refl refl
      refl
