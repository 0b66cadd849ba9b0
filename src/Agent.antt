-- ===== src/Agent.antt =====
-- gorp-agent/src/handle.rs and registry.rs: the handle of a backend, with the sessions that wait for
-- their first prompt. The worker thread is outside: what it replies is an argument (a worker that is
-- closed or drops a reply gives an error), and a prompt is a step that begins it and one that ends it.
pub mod Prompts
use gorp_rs.Base.{
  ℕ, String, Bool, true, false, ◌==◌, List, [], ◌∷◌, Option, none, some, Result, ok, err, Error,
  message, length, if◌then◌else◌, find_key, put, without, map,
}
use gorp_rs.Text.{◌^^◌}

pub data SessionState : Type 0 where
  new first_prompt_in_flight active : SessionState

-- Without the channels for replies and events.
pub data Command : Type 0 where
  new_session : Command
  load_session : String → Command
  prompt : String → String → Bool → Command
  cancel : String → Command

pub record AgentHandle : Type 0 where
  pub name : String
  pub session_states : List (String × SessionState)

abbrev pub new_handle : String → AgentHandle
new_handle name = record { name = name; session_states = [] }

-- `new_session`, when the worker replies.
unfoldable pub session_created : Result String → AgentHandle → AgentHandle × Result String
session_created (err e) h = (h, err e)
session_created (ok id) h = (record h { session_states = put id new h.session_states }, ok id)

-- The match on the state of a session.
unfoldable pub is_first : Option SessionState → Bool
is_first none = false
is_first (some new) = true
is_first (some first_prompt_in_flight) = false
is_first (some active) = false

-- `prompt`, until the command is sent.
unfoldable pub begin_prompt : String → String → AgentHandle → AgentHandle × Command
unfolding is_first
begin_prompt session_id body h =
    let is_new_session = is_first (find_key session_id h.session_states) in
    let taken = record h {
      session_states = put session_id first_prompt_in_flight h.session_states;
    } in
    (if is_new_session then taken else h, prompt session_id body is_new_session)

-- `prompt`, when the worker replies, or when the command cannot be sent.
unfoldable pub end_prompt : String → Bool → Result (Unit {0}) → AgentHandle → AgentHandle
end_prompt session_id is_new_session (err e) h = h
end_prompt session_id is_new_session (ok x) h =
    if is_new_session then record h { session_states = without session_id h.session_states } else h

unfoldable pub abandon_session : String → AgentHandle → AgentHandle
abandon_session session_id h = record h { session_states = without session_id h.session_states }

abbrev pub tracked_session_count : AgentHandle → ℕ
tracked_session_count h = length h.session_states

-- An AgentRegistry: a factory for each name.
module _ (Value Handle : Type 0) where
  abbrev pub BackendFactory : Type 0
  BackendFactory = Value → Result Handle

  abbrev pub AgentRegistry : Type 0
  AgentRegistry = List (String × BackendFactory)

  unfoldable pub register : String → BackendFactory → AgentRegistry → AgentRegistry
  register name factory factories = put name factory factories

  unfoldable pub create : String → Value → AgentRegistry → Result Handle
  create name config factories = elim (find_key name factories) [
    | none ↦ err (message ("Unknown backend: " ^^ name))
    | some factory ↦ factory config
  ]

  abbrev pub available : AgentRegistry → List String
  available factories = map (λ e. e.0) factories
