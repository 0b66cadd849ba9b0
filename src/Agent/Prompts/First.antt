-- ===== src/Agent/Prompts/First.antt =====
-- gorp-agent/src/handle.rs: which prompt of a session initializes it.
use gorp_rs.Base.{
  String, Bool, true, false, ◌==◌, ◌≡◌, refl, ◌∙◌, List, [], ◌∷◌, Result, ok, err, arith, eq_refl,
  find_key, find_key-put, find_key-without, without,
}
use gorp_rs.Agent.{
  new, first_prompt_in_flight, AgentHandle, session_created, is_first, begin_prompt, end_prompt,
  abandon_session, prompt,
}
use gorp_rs.Agent.Prompts.{
  Step, created, began, ended, abandoned, take, first_prompts, NotCreated, first_of, failed-first,
  began_self, none_first, created_self,
}

unfoldable pub take_all : List Step → AgentHandle → AgentHandle
unfolding take
take_all [] h = h
take_all (s ∷ steps) h = take_all steps (take s h)

-- No prompt of the session begins or ends, and it is not abandoned.
abbrev pub Untouched : String → List Step → Type 0
Untouched id [] = Unit
Untouched id (created reply ∷ steps) = Untouched id steps
Untouched id (began q body ∷ steps) = ((q == id) ≡ false) × Untouched id steps
Untouched id (ended q is_new reply ∷ steps) = ((q == id) ≡ false) × Untouched id steps
Untouched id (abandoned q ∷ steps) = ((q == id) ≡ false) × Untouched id steps

-- A session that is new stays new, whatever happens to other sessions.
without_other-first :
    (id q : String) (h : AgentHandle)
    → (q == id) ≡ false
    → is_first (find_key id (without q h.session_states)) ≡ first_of id h
without_other-first id q h d = ground (arith, find_key-without q id h.session_states, d)

created-new :
    (id q : String) (h : AgentHandle)
    → first_of id h ≡ true
    → first_of id (take (created (ok q)) h) ≡ true
unfolding take session_created is_first
created-new id q h e = ground (arith, find_key-put q id new h.session_states, e)

began_other-first :
    (id q body : String) (h : AgentHandle)
    → (q == id) ≡ false
    → first_of id (take (began q body) h) ≡ first_of id h
unfolding take begin_prompt
began_other-first id q body h d =
    ground (arith, find_key-put q id first_prompt_in_flight h.session_states, d)

ended_other-first :
    (id q : String) (is_new : Bool) (reply : Result (Unit {0})) (h : AgentHandle)
    → (q == id) ≡ false
    → first_of id (take (ended q is_new reply) h) ≡ first_of id h
unfolding take end_prompt
ended_other-first id q true (ok x) h d = without_other-first id q h d
ended_other-first id q false (ok x) h d = refl
ended_other-first id q is_new (err f) h d = refl

abandoned_other-first :
    (id q : String) (h : AgentHandle)
    → (q == id) ≡ false
    → first_of id (take (abandoned q) h) ≡ first_of id h
unfolding take abandon_session
abandoned_other-first id q h d = without_other-first id q h d

Untouched-first :
    (id : String) (steps : List Step) (h : AgentHandle)
    → Untouched id steps
    → first_of id h ≡ true
    → first_of id (take_all steps h) ≡ true
unfolding take_all
Untouched-first id [] h n e = e
Untouched-first id (created (ok q) ∷ steps) h n e =
    Untouched-first id steps (take (created (ok q)) h) n (created-new id q h e)
Untouched-first id (created (err f) ∷ steps) h n e =
    Untouched-first id steps (take (created (err f)) h) n (failed-first id f h ∙ e)
Untouched-first id (began q body ∷ steps) h n e =
    Untouched-first id steps (take (began q body) h) n.1 (began_other-first id q body h n.0 ∙ e)
Untouched-first id (ended q is_new reply ∷ steps) h n e =
    Untouched-first id steps (take (ended q is_new reply) h) n.1
      (ended_other-first id q is_new reply h n.0 ∙ e)
Untouched-first id (abandoned q ∷ steps) h n e =
    Untouched-first id steps (take (abandoned q) h) n.1 (abandoned_other-first id q h n.0 ∙ e)

first_sent :
    (id body : String) (h : AgentHandle)
    → first_of id h ≡ true
    → (begin_prompt id body h).1 ≡ prompt id body true
unfolding begin_prompt
first_sent id body h e = rw e refl

-- An abandoned session is not new.
abandoned_self : (id : String) (h : AgentHandle) → first_of id (take (abandoned id) h) ≡ false
unfolding take abandon_session is_first
abandoned_self id h = rw (find_key-without id id h.session_states, eq_refl id) refl

-- After a session is created, whatever then happens to other sessions, and however often the worker
-- creates it anew before that: the next prompt of the session is sent as its first. From there, as
-- long as no session with the ID is created again, no prompt of it is: neither when prompts overlap,
-- nor when the worker replied to the first one with an error. If it is abandoned before its first
-- prompt, no prompt of it is sent as its first.
pub begin_prompt-session_created :
    (id body : String) (before after : List Step) (h : AgentHandle)
    → Untouched id before
    → NotCreated id after
    → let h' = take_all before (session_created (ok id) h).0 in
      ((begin_prompt id body h').1 ≡ prompt id body true)
      × (first_prompts id after (begin_prompt id body h').0 ≡ 0)
      × (first_prompts id after (abandon_session id h') ≡ 0)
unfolding take
begin_prompt-session_created id body before after h untouched n =
    let h' = take_all before (session_created (ok id) h).0 in
    (
      first_sent id body h'
          (Untouched-first id before (session_created (ok id) h).0 untouched (created_self id h)),
      none_first id after (begin_prompt id body h').0 n (began_self id body h'),
      none_first id after (abandon_session id h') n (abandoned_self id h'),
    )
