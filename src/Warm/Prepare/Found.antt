-- ===== src/Warm/Prepare/Found.antt =====
-- gorp-core/src/warm_session.rs, prepare_session_async: what the look-up of a session gives.
use gorp_rs.Base.{ℕ, String, true, false, ◌≡◌, none, some, arith}
use gorp_rs.Warm.{Agents, WarmSession, WarmSessionManager, get_existing_session, cell, touch}
use gorp_rs.Warm.Prepare.{look}

module _ (a : Agents) where
  pub look-none :
      (now : ℕ) (name : String) (w : WarmSessionManager a)
      → get_existing_session a name w ≡ none
      → look a now name w ≡ (w, none)
  unfolding look
  look-none now name w h = ground (arith, h)

  pub look_dangling :
      (now i : ℕ) (name : String) (w : WarmSessionManager a)
      → get_existing_session a name w ≡ some i
      → cell a i w.cells ≡ none
      → look a now name w ≡ (w, none)
  unfolding look
  look_dangling now i name w h k = ground (arith, h, k)

  pub look_invalidated :
      (now i : ℕ) (name : String) (s : WarmSession a) (w : WarmSessionManager a)
      → get_existing_session a name w ≡ some i
      → cell a i w.cells ≡ some s
      → s.invalidated ≡ true
      → look a now name w ≡ (w, none)
  unfolding look
  look_invalidated now i name s w h k v = ground (arith, h, k, v)

  pub look_valid :
      (now i : ℕ) (name : String) (s : WarmSession a) (w : WarmSessionManager a)
      → get_existing_session a name w ≡ some i
      → cell a i w.cells ≡ some s
      → s.invalidated ≡ false
      → look a now name w ≡ (touch a now i w, some (i, s.session_id))
  unfolding look
  look_valid now i name s w h k v = ground (arith, h, k, v)
