-- ===== src/Agent/Prompts.antt =====
-- gorp-agent/src/handle.rs: when no prompt of a session initializes it any more.
pub mod First
use gorp_rs.Base.{
  ℕ, ◌+◌, String, Bool, true, false, ◌&&◌, ◌==◌, ◌≡◌, refl, ap, ◌∙◌, inl, inr, List, [], ◌∷◌,
  Result, ok, err, Error, arith, eq_iff, eq_refl, Bool-cases, find_key, find_key-put,
  find_key-without, without, if◌then◌else◌,
}
use gorp_rs.Agent.{
  new, first_prompt_in_flight, AgentHandle, session_created, is_first, begin_prompt, end_prompt,
  abandon_session, Command, prompt,
}

-- What tasks do with a handle: a prompt that ends is told as the one that began.
pub data Step : Type 0 where
  created : Result String → Step
  began : String → String → Step
  ended : String → Bool → Result (Unit {0}) → Step
  abandoned : String → Step

unfoldable pub take : Step → AgentHandle → AgentHandle
unfolding session_created begin_prompt end_prompt abandon_session
take (created reply) h = (session_created reply h).0
take (began id body) h = (begin_prompt id body h).0
take (ended id is_new reply) h = end_prompt id is_new reply h
take (abandoned id) h = abandon_session id h

abbrev initializes : Command → Bool
initializes (prompt id body is_new) = is_new
initializes _ = false

-- How many prompts of a session are sent as its first.
unfoldable pub first_prompts : String → List Step → AgentHandle → ℕ
unfolding take begin_prompt
first_prompts id [] h = 0
first_prompts id (created reply ∷ steps) h = first_prompts id steps (take (created reply) h)
first_prompts id (began q body ∷ steps) h =
    let rest = first_prompts id steps (take (began q body) h) in
    if q == id && initializes (begin_prompt q body h).1 then 1 + rest else rest
first_prompts id (ended q is_new reply ∷ steps) h =
    first_prompts id steps (take (ended q is_new reply) h)
first_prompts id (abandoned q ∷ steps) h = first_prompts id steps (take (abandoned q) h)

-- The worker does not create the session again.
abbrev pub NotCreated : String → List Step → Type 0
NotCreated id [] = Unit
NotCreated id (created (ok q) ∷ steps) = ((q == id) ≡ false) × NotCreated id steps
NotCreated id (s ∷ steps) = NotCreated id steps

abbrev pub first_of : String → AgentHandle → Bool
first_of id h = is_first (find_key id h.session_states)

-- The state of a session after a step.
created-first :
    (id q : String) (h : AgentHandle)
    → (q == id) ≡ false
    → first_of id (take (created (ok q)) h) ≡ first_of id h
unfolding take session_created
created-first id q h d = ground (arith, find_key-put q id new h.session_states, d)

without-first :
    (id q : String) (h : AgentHandle)
    → first_of id h ≡ false
    → is_first (find_key id (without q h.session_states)) ≡ false
unfolding is_first
without-first id q h e = ground (arith, find_key-without q id h.session_states, e)

ended-first :
    (id q : String) (is_new : Bool) (reply : Result (Unit {0})) (h : AgentHandle)
    → first_of id h ≡ false
    → first_of id (take (ended q is_new reply) h) ≡ false
unfolding take end_prompt
ended-first id q true (ok x) h e = without-first id q h e
ended-first id q false (ok x) h e = e
ended-first id q is_new (err f) h e = e

began-first :
    (id q body : String) (h : AgentHandle)
    → first_of id h ≡ false
    → first_of id (take (began q body) h) ≡ false
unfolding take begin_prompt is_first
began-first id q body h e =
    ground (arith, find_key-put q id first_prompt_in_flight h.session_states, e)

pub failed-first :
    (id : String) (f : Error) (h : AgentHandle)
    → first_of id (take (created (err f)) h) ≡ first_of id h
unfolding take session_created
failed-first id f h = refl

abandoned-first :
    (id q : String) (h : AgentHandle)
    → first_of id h ≡ false
    → first_of id (take (abandoned q) h) ≡ false
unfolding take abandon_session
abandoned-first id q h e = without-first id q h e

-- A prompt of this or another session does not count.
began_other :
    (id q body : String) (h : AgentHandle)
    → first_of id h ≡ false
    → (q == id && initializes (begin_prompt q body h).1) ≡ false
unfolding begin_prompt
began_other id q body h e = elim (Bool-cases (q == id)) [
  | inl k ↦ rw k (ap (λ t. first_of t h) ((eq_iff q id).0 k) ∙ e)
  | inr k ↦ rw k refl
]

pub created_self :
    (id : String) (h : AgentHandle) → first_of id (session_created (ok id) h).0 ≡ true
unfolding session_created is_first
created_self id h = rw (find_key-put id id new h.session_states, eq_refl id) refl

-- The first prompt takes the state.
pub began_self : (id body : String) (h : AgentHandle) → first_of id (take (began id body) h) ≡ false
unfolding take begin_prompt is_first
began_self id body h = elim (Bool-cases (first_of id h)) [
  | inl e ↦ rw e (rw (find_key-put id id first_prompt_in_flight h.session_states, eq_refl id) refl)
  | inr e ↦ rw e e
]

-- Once a session is not new, no prompt is sent as its first.
pub none_first :
    (id : String) (steps : List Step) (h : AgentHandle)
    → NotCreated id steps
    → first_of id h ≡ false
    → first_prompts id steps h ≡ 0
unfolding first_prompts
none_first id [] h n e = refl
none_first id (created (ok q) ∷ steps) h n e =
    none_first id steps (take (created (ok q)) h) n.1 (created-first id q h n.0 ∙ e)
none_first id (created (err f) ∷ steps) h n e =
    none_first id steps (take (created (err f)) h) n (failed-first id f h ∙ e)
none_first id (began q body ∷ steps) h n e = ground (
  arith,
  began_other id q body h e,
  none_first id steps (take (began q body) h) n (began-first id q body h e),
)
none_first id (ended q is_new reply ∷ steps) h n e =
    none_first id steps (take (ended q is_new reply) h) n (ended-first id q is_new reply h e)
none_first id (abandoned q ∷ steps) h n e =
    none_first id steps (take (abandoned q) h) n (abandoned-first id q h e)
