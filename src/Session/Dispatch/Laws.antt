-- ===== src/Session/Dispatch/Laws.antt =====
-- gorp-core/src/session.rs, get_or_create_dispatch_channel: on every branch, and with other threads at
-- work between its steps.
use gorp_rs.Base.{
  String, true, false, ◌&&◌, ◌≡◌, refl, ap, ◌∙◌, Option, none, some, Result, ok, err, ◌==◌, List,
  [], ◌∷◌, ◌++◌, arith, Bool-cases, Option-cases, inl, inr, has_key, any, message, first-append,
  eq_refl,
}
use gorp_rs.Sql.{query_row}
use gorp_rs.Database.{Channel, Db, execute, query}
use gorp_rs.Session.Channels.{insert_channel, channel_taken}
use gorp_rs.Session.Channels.Laws.{with_channels}
use gorp_rs.Session.Dispatch.{get_dispatch_channel, get_or_create_dispatch_channel, dispatch_row}

abbrev pub dispatch_in : String → Db → Option Channel
dispatch_in room db = query_row (λ c. c.room_id == room && c.is_dispatch_room) db.channels

pub get_dispatch_channel_eq :
    (room : String) (db : Db)
    → db.fault ≡ none
    → get_dispatch_channel room db ≡ (db, ok (dispatch_in room db))
unfolding get_dispatch_channel query
get_dispatch_channel_eq room db sound = ground arith

module _ (meanwhile later : Db → Db) (room uuid now : String) (db : Db) (sound : db.fault ≡ none)
    (sound' : (meanwhile db).fault ≡ none) (sound'' : (later (meanwhile db)).fault ≡ none) where
  abbrev row : Channel
  row = dispatch_row room uuid now

  abbrev call : Db × Result Channel
  call = get_or_create_dispatch_channel meanwhile later room uuid now db

  existing_eq : (c : Channel) → dispatch_in room db ≡ some c → call ≡ (db, ok c)
  unfolding get_or_create_dispatch_channel query
  existing_eq c h = ground arith

  fresh_eq :
      dispatch_in room db ≡ none
      → channel_taken row (meanwhile db) ≡ false
      → call ≡ (with_channels ((meanwhile db).channels ++ row ∷ []) (meanwhile db), ok row)
  unfolding get_or_create_dispatch_channel query execute insert_channel
  fresh_eq h free = ground arith

  raced_eq :
      dispatch_in room db ≡ none
      → channel_taken row (meanwhile db) ≡ true
      → call ≡ (
        later (meanwhile db),
        elim (dispatch_in room (later (meanwhile db))) [
          | none ↦ err (message "Channel disappeared after UNIQUE constraint error")
          | some c ↦ ok c
        ],
      )
  unfolding get_or_create_dispatch_channel query execute insert_channel
  raced_eq h taken = ground arith

  no_dispatch :
      (rows : List Channel)
      → has_key (λ c. c.room_id) room rows ≡ false
      → any (λ c. c.room_id == room && c.is_dispatch_room) rows ≡ false
  no_dispatch [] h = refl
  no_dispatch (c ∷ rows) h = ground (arith, no_dispatch rows)

  created-dispatch_in :
      (rows : List Channel)
      → has_key (λ c. c.room_id) room rows ≡ false
      → query_row (λ c. c.room_id == room && c.is_dispatch_room) (rows ++ row ∷ []) ≡ some row
  created-dispatch_in rows h = rw (
    first-append (λ c. c.room_id == room && c.is_dispatch_room) rows (row ∷ [])
        (no_dispatch rows h),
    eq_refl room,
  )

  -- Whatever other threads do between the steps, as long as the connection stays sound, a channel
  -- that the call returns is the DISPATCH channel that the database holds for the room when the
  -- call ends.
  pub get_or_create-dispatch_in : (c : Channel) → call.1 ≡ ok c → dispatch_in room call.0 ≡ some c
  get_or_create-dispatch_in c h = elim (Option-cases (dispatch_in room db)) [
    | inr (d, present) ↦
        let eq = existing_eq d present in
        rw (ap (λ (r : Db × Result Channel). r.0) eq)
          (ground (arith, ap (λ (r : Db × Result Channel). r.1) eq))
    | inl absent ↦ elim (Bool-cases (channel_taken row (meanwhile db))) [
      | inr free ↦
          let eq = fresh_eq absent free in
          let fresh : has_key (λ d. d.room_id) room (meanwhile db).channels ≡ false =
            ground arith in
          let same : row ≡ c = ground (arith, ap (λ (r : Db × Result Channel). r.1) eq) in
          rw (ap (λ (r : Db × Result Channel). r.0) eq)
            (created-dispatch_in (meanwhile db).channels fresh ∙ ap some same)
      | inl taken ↦
          let eq = raced_eq absent taken in
          rw (ap (λ (r : Db × Result Channel). r.0) eq)
            (ground (arith, ap (λ (r : Db × Result Channel). r.1) eq))
    ]
  ]

-- Over a sound connection and with no other thread at work, a room of an ordinary channel gets no
-- DISPATCH channel: the call fails and changes nothing.
pub get_or_create_ordinary :
    (room uuid now : String) (db : Db)
    → db.fault ≡ none
    → dispatch_in room db ≡ none
    → has_key (λ c. c.room_id) room db.channels ≡ true
    → get_or_create_dispatch_channel (λ d. d) (λ d. d) room uuid now db
      ≡ (db, err (message "Channel disappeared after UNIQUE constraint error"))
get_or_create_ordinary room uuid now db sound absent taken =
    raced_eq (λ d. d) (λ d. d) room uuid now db sound sound sound absent (ground arith)
    ∙ ap
        (λ (o : Option Channel). (
          db,
          elim o [
            | none ↦ err (message "Channel disappeared after UNIQUE constraint error")
            | some c ↦ ok c
          ],
        ))
        absent
