-- ===== src/Warm/Prepare/Told.antt =====
-- gorp-core/src/warm_session.rs, prepare_session_async: which session ID a caller is told.
use gorp_rs.Base.{
  ℕ, String, Bool, true, false, not, ◌&&◌, ◌==◌, ◌≡◌, refl, Option, none, some, Result, ok, err,
  arith, Option-cases, Bool-cases, inl, inr, find_key, if◌then◌else◌,
}
use gorp_rs.Database.{Channel}
use gorp_rs.Warm.{
  Agents, WarmSession, WarmSessionManager, Reply, replied, timed_out, cell, get_existing_session,
}
use gorp_rs.Warm.Sessions.{Opened, created_session, resumed_session, open_session, open_with}
use gorp_rs.Warm.Prepare.{look, open_outside, insert_opened, prepare_session_async}
use gorp_rs.Warm.Prepare.Found.{look-none, look_dangling, look_invalidated, look_valid}
use gorp_rs.Warm.Prepare.Races.{Ensures}

module _ (a : Agents) where
  -- A session that is not new has the ID of the channel.
  abbrev IsTold : Channel → String → Bool → Type 0
  IsTold ch id is_new = is_new ≡ false → id ≡ ch.session_id

  abbrev pub Tells : Channel → WarmSessionManager a → ℕ × String × Bool → Type 0
  Tells ch w p = IsTold ch p.1 p.2

  abbrev Gives : Channel → a.State × Result (String × Bool) → Type 0
  Gives ch (st, ok o) = IsTold ch o.0 o.1
  Gives ch (st, err e) = Unit

  created_session-Gives :
      (ch : Channel) (r : a.State × Reply String) → Gives ch (created_session a r)
  unfolding created_session
  created_session-Gives ch (st, replied (ok id)) = λ e. absurd (ground (arith, e))
  created_session-Gives ch (st, replied (err e)) = tt
  created_session-Gives ch (st, timed_out) = tt

  resumed_session-Gives :
      (ch : Channel) (handle : a.Handle) (r : a.State × Reply (Unit {0}))
      → Gives ch (resumed_session a ch handle r)
  unfolding resumed_session
  resumed_session-Gives ch handle (st, replied (ok x)) = λ e. refl
  resumed_session-Gives ch handle (st, replied (err e)) =
      created_session-Gives ch (a.new_session handle st)
  resumed_session-Gives ch handle (st, timed_out) =
      created_session-Gives ch (a.new_session handle st)

  if-Gives :
      (ch : Channel) (b : Bool) (x y : a.State × Result (String × Bool))
      → Gives ch x
      → Gives ch y
      → Gives ch (if b then x else y)
  if-Gives ch true x y h k = h
  if-Gives ch false x y h k = k

  open_session-Gives :
      (ch : Channel) (handle : a.Handle) (st : a.State) → Gives ch (open_session a ch handle st)
  unfolding open_session
  open_session-Gives ch handle st =
      if-Gives ch (ch.started && not (ch.session_id == "")) _ _
        (resumed_session-Gives ch handle (a.load_session handle ch.session_id st))
        (created_session-Gives ch (a.new_session handle st))

  abbrev Offers : Channel → Result (Opened a) → Type 0
  Offers ch (ok o) = IsTold ch o.1 o.2
  Offers ch (err e) = Unit

  offered :
      (ch : Channel) (handle : a.Handle) (r : a.State × Result (String × Bool))
      → Gives ch r
      → Offers ch (elim r.1 [ err e ↦ err e | ok o ↦ ok (handle, o.0, o.1) ])
  offered ch handle (st, ok o) h = h
  offered ch handle (st, err e) h = tt

  open_with-Offers : (ch : Channel) (r : a.State × Result a.Handle) → Offers ch (open_with a ch r).1
  unfolding open_with
  open_with-Offers ch (st, err e) = tt
  open_with-Offers ch (st, ok handle) =
      offered ch handle (open_session a ch handle st) (open_session-Gives ch handle st)

  insert_opened-Tells :
      (later : ℕ) (ch : Channel) (opened : Result (Opened a)) (w : WarmSessionManager a)
      → Offers ch opened
      → Ensures a (Tells ch) (insert_opened a later ch opened w)
  unfolding insert_opened
  insert_opened-Tells later ch (err e) w h = tt
  insert_opened-Tells later ch (ok (handle, id, is_new)) w h = h

  abbrev Agreed : Channel → WarmSessionManager a × Option (ℕ × String) → Type 0
  Agreed ch (w, none) = Unit
  Agreed ch (w, some q) = q.1 ≡ ch.session_id

  look-Agreed :
      (now : ℕ) (ch : Channel) (w : WarmSessionManager a)
      → ((i : ℕ) (s : WarmSession a)
          → get_existing_session a ch.channel_name w ≡ some i
          → cell a i w.cells ≡ some s
          → s.session_id ≡ ch.session_id)
      → Agreed ch (look a now ch.channel_name w)
  look-Agreed now ch w current =
      let name = ch.channel_name in
      elim (Option-cases (find_key name w.sessions)) [
        | inl e ↦ rw (look-none a now name w e) tt
        | inr (i, e) ↦ elim (Option-cases (cell a i w.cells)) [
          | inl k ↦ rw (look_dangling a now i name w e k) tt
          | inr (s, k) ↦ elim (Bool-cases s.invalidated) [
            | inl v ↦ rw (look_invalidated a now i name s w e k v) tt
            | inr v ↦ rw (look_valid a now i name s w e k v) (current i s e k)
          ]
        ]
      ]

  looked-Tells :
      (later : ℕ) (meanwhile : WarmSessionManager a → WarmSessionManager a) (ch : Channel)
      (r : WarmSessionManager a × Option (ℕ × String))
      → Agreed ch r
      → Ensures a (Tells ch) (elim r.1 [
        | some p ↦ (r.0, ok (p.0, p.1, false))
        | none ↦
            insert_opened a later ch
              (open_outside a ch r.0).1
              (meanwhile (record r.0 { agents = (open_outside a ch r.0).0 }))
      ])
  unfolding open_outside
  looked-Tells later meanwhile ch (w, none) h =
      insert_opened-Tells later ch (open_outside a ch w).1 _ (open_with-Offers ch _)
  looked-Tells later meanwhile ch (w, some q) h = λ e. h

  -- If the session that is warm for a channel has the ID of the channel, so has every session that is
  -- prepared for it and not new.
  pub prepare_session_async-Tells :
      (now later : ℕ) (meanwhile : WarmSessionManager a → WarmSessionManager a) (ch : Channel)
      (w : WarmSessionManager a)
      → ((i : ℕ) (s : WarmSession a)
          → get_existing_session a ch.channel_name w ≡ some i
          → cell a i w.cells ≡ some s
          → s.session_id ≡ ch.session_id)
      → Ensures a (Tells ch) (prepare_session_async a now later meanwhile ch w)
  unfolding prepare_session_async
  prepare_session_async-Tells now later meanwhile ch w current =
      looked-Tells later meanwhile ch (look a now ch.channel_name w) (look-Agreed now ch w current)
