-- ===== src/Warm/Prepare/Fresh.antt =====
-- gorp-core/src/warm_session.rs, prepare_session_async: a channel that is neither warm nor started.
use gorp_rs.Base.{
  ℕ, ◌≤◌, String, Bool, true, false, ◌≡◌, refl, ap, Option, none, some, Result, ok, err, arith,
  length, find_key-put, eq_refl,
}
use gorp_rs.Database.{Channel}
use gorp_rs.Warm.{
  Agents, WarmSession, WarmSessionManager, cell, insert_session, Reply, replied, timed_out,
  get_existing_session,
}
use gorp_rs.Warm.Laws.{cell_last, cell_beyond}
use gorp_rs.Warm.Sessions.{Opened, allocate, created_session, open_session, open_with}
use gorp_rs.Warm.Prepare.{look, open_outside, insert_opened, prepare_session_async}
use gorp_rs.Warm.Prepare.Found.{look-none}
use gorp_rs.Warm.Prepare.Races.{Ensures}

module _ (a : Agents) where
  -- A prepared session that was opened as a new one on the agent that `open_outside` makes, that the
  -- manager holds for the channel, valid and under the ID that the caller got, and that is none of the
  -- sessions that were there before.
  abbrev pub IsNew :
      Channel → WarmSessionManager a → WarmSessionManager a → ℕ × String × Bool → Type 0
  IsNew ch before w p =
      (s : WarmSession a) × ((open_outside a ch before).1 ≡ ok (s.handle, p.1, true))
      × (get_existing_session a ch.channel_name w ≡ some p.0)
      × (cell a p.0 w.cells ≡ some s)
      × (s.session_id ≡ p.1)
      × (s.invalidated ≡ false)
      × (p.2 ≡ true)
      × (cell a p.0 before.cells ≡ none)

  abbrev Fresh : a.State × Result (String × Bool) → Type 0
  Fresh (st, ok o) = o.1 ≡ true
  Fresh (st, err e) = Unit

  created_session-Fresh : (r : a.State × Reply String) → Fresh (created_session a r)
  unfolding created_session
  created_session-Fresh (st, replied (ok id)) = refl
  created_session-Fresh (st, replied (err e)) = tt
  created_session-Fresh (st, timed_out) = tt

  open_session-Fresh :
      (ch : Channel) (handle : a.Handle) (st : a.State)
      → ch.started ≡ false
      → Fresh (open_session a ch handle st)
  unfolding open_session
  open_session-Fresh ch handle st h = rw h (created_session-Fresh (a.new_session handle st))

  abbrev OffersNew : Result (Opened a) → Type 0
  OffersNew (ok o) = o.2 ≡ true
  OffersNew (err e) = Unit

  offered :
      (handle : a.Handle) (r : a.State × Result (String × Bool))
      → Fresh r
      → OffersNew (elim r.1 [ err e ↦ err e | ok o ↦ ok (handle, o.0, o.1) ])
  offered handle (st, ok o) h = h
  offered handle (st, err e) h = tt

  open_with-OffersNew :
      (ch : Channel) (r : a.State × Result a.Handle)
      → ch.started ≡ false
      → OffersNew (open_with a ch r).1
  unfolding open_with
  open_with-OffersNew ch (st, err e) h = tt
  open_with-OffersNew ch (st, ok handle) h =
      offered handle (open_session a ch handle st) (open_session-Fresh ch handle st h)

  outside-OffersNew :
      (ch : Channel) (w : WarmSessionManager a)
      → ch.started ≡ false
      → OffersNew (open_outside a ch w).1
  unfolding open_outside
  outside-OffersNew ch w h = open_with-OffersNew ch _ h

  insert_opened-IsNew :
      (later : ℕ) (ch : Channel) (before : WarmSessionManager a) (opened : Result (Opened a))
      (w : WarmSessionManager a)
      → (open_outside a ch before).1 ≡ opened
      → OffersNew opened
      → get_existing_session a ch.channel_name w ≡ none
      → length before.cells ≤ length w.cells
      → Ensures a (IsNew ch before) (insert_opened a later ch opened w)
  unfolding insert_opened insert_session allocate
  insert_opened-IsNew later ch before (err e) w o n h grown = tt
  insert_opened-IsNew later ch before (ok (handle, id, is_new)) w o n h grown = rw h (
    record { handle = handle; session_id = id; last_used = later; invalidated = false },
    rw n at o,
    ground (
      arith,
      find_key-put ch.channel_name ch.channel_name (length w.cells) w.sessions,
      eq_refl ch.channel_name,
    ),
    cell_last a _ w.cells,
    refl,
    refl,
    n,
    cell_beyond a (length w.cells) before.cells grown,
  )

  looked-IsNew :
      (later : ℕ) (meanwhile : WarmSessionManager a → WarmSessionManager a) (ch : Channel)
      (w : WarmSessionManager a) (r : WarmSessionManager a × Option (ℕ × String))
      → ch.started ≡ false
      → ((v : WarmSessionManager a) → get_existing_session a ch.channel_name (meanwhile v) ≡ none)
      → ((v : WarmSessionManager a) → length v.cells ≤ length (meanwhile v).cells)
      → r ≡ (w, none)
      → Ensures a (IsNew ch w) (elim r.1 [
        | some p ↦ (r.0, ok (p.0, p.1, false))
        | none ↦
            insert_opened a later ch
              (open_outside a ch r.0).1
              (meanwhile (record r.0 { agents = (open_outside a ch r.0).0 }))
      ])
  looked-IsNew later meanwhile ch w (v, none) h alone grown e =
      let same : v ≡ w = ap (λ r. r.0) e in
      let u = record w { agents = (open_outside a ch w).0 } in
      rw same (
        insert_opened-IsNew later ch w (open_outside a ch w).1 (meanwhile u) refl
          (outside-OffersNew ch w h) (alone u) (grown u))
  looked-IsNew later meanwhile ch w (v, some q) h alone grown e =
      absurd (ground (arith, ap (λ r. r.1) e))

  -- While other tasks leave no session of the channel behind and drop none from memory.
  pub prepare_session_async-IsNew :
      (now later : ℕ) (meanwhile : WarmSessionManager a → WarmSessionManager a) (ch : Channel)
      (w : WarmSessionManager a)
      → ((v : WarmSessionManager a) → get_existing_session a ch.channel_name (meanwhile v) ≡ none)
      → ((v : WarmSessionManager a) → length v.cells ≤ length (meanwhile v).cells)
      → get_existing_session a ch.channel_name w ≡ none
      → ch.started ≡ false
      → Ensures a (IsNew ch w) (prepare_session_async a now later meanwhile ch w)
  unfolding prepare_session_async
  prepare_session_async-IsNew now later meanwhile ch w alone grown h k =
      looked-IsNew later meanwhile ch w (look a now ch.channel_name w) k alone grown
        (look-none a now ch.channel_name w h)
