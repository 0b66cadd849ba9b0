-- ===== src/Session/Channels/Creation.antt =====
-- gorp-core/src/session.rs, create_channel: what it leaves in the database on each branch.
use gorp_rs.Base.{
  String, true, false, ◌≡◌, refl, ap, ◌∙◌, Option, none, some, Result, ok, err, ◌==◌, [], ◌∷◌, ◌++◌,
  if◌then◌else◌, arith, Bool-cases, inl, inr, has_key, ◌⊎◌, Error, message, first-append,
  any-append, eq_refl, eq_iff, Result-cases,
}
use gorp_rs.Text.{join, Unicode, contains, all_chars}
use gorp_rs.Text.Laws.{contains-join, all_chars-Avoids}
use gorp_rs.Database.{Channel, Db, execute, execute_ok}
use gorp_rs.Session.Files.{FileSystem, provision}
use gorp_rs.Session.Channels.{
  get_by_room, get_by_name, validated, traversal, create_channel, new_channel, validate_name,
  insert_channel, channel_taken, provisioned, name_char, Outcome,
}
use gorp_rs.Session.Channels.Laws.{get_by_room_eq, get_by_name_eq, with_channels, validated-some}

module _ (fs : FileSystem) (u : Unicode) (workspace_path name room_id uuid now : String) (db : Db)
    (sound : db.fault ≡ none) (st : fs.State) where
  abbrev c : Channel
  c = new_channel u workspace_path name room_id uuid now

  abbrev call : Outcome fs
  call = create_channel fs u workspace_path name room_id uuid now db st

  abbrev stored : Db
  stored = with_channels (db.channels ++ c ∷ []) db

  insert_fresh : channel_taken c db ≡ false → insert_channel c db ≡ (stored, ok tt)
  unfolding insert_channel
  insert_fresh h = execute_ok _ db stored sound (rw h)

  insert_taken : channel_taken c db ≡ true → insert_channel c db ≡ (db, err Error.unique_violation)
  unfolding insert_channel execute
  insert_taken h = ground arith

  call_invalid : (e : Error) → validate_name u c.channel_name ≡ err e → call ≡ (db, st, err e)
  unfolding create_channel
  call_invalid e invalid = rw (invalid, create_channel)

  call_taken :
      validate_name u c.channel_name ≡ ok tt
      → channel_taken c db ≡ true
      → call ≡ (db, st, err (message "Channel name or room already exists"))
  unfolding create_channel
  call_taken valid h = rw (valid, create_channel) (rw (insert_taken h))

  call_fresh :
      validate_name u c.channel_name ≡ ok tt
      → channel_taken c db ≡ false
      → call ≡ provisioned fs c stored (provision fs workspace_path c.directory st)
  unfolding create_channel
  call_fresh valid h = rw (valid, create_channel) (rw (insert_fresh h))

  -- A validated name holds neither a dot nor a slash.
  valid-all_chars :
      validate_name u c.channel_name ≡ ok tt → all_chars (name_char u) c.channel_name ≡ true
  unfolding validate_name
  valid-all_chars valid = ground arith

  directory_dots :
      validate_name u c.channel_name ≡ ok tt
      → contains c.directory ".." ≡ contains workspace_path ".."
  directory_dots valid =
      contains-join workspace_path c.channel_name
        (all_chars-Avoids (name_char u) b'.' (λ d e. ground (arith, u.dot_not_alphanumeric d e))
          c.channel_name (valid-all_chars valid))
        (all_chars-Avoids (name_char u) b'/' (λ d e. ground (arith, u.slash_not_alphanumeric d e))
          c.channel_name (valid-all_chars valid))

  -- What a look-up of the new channel gives.
  abbrev found : Result (Option Channel)
  found = if contains workspace_path ".." then err traversal else ok (some c)

  validated-c : validate_name u c.channel_name ≡ ok tt → validated (some c) ≡ found
  validated-c valid = rw (validated-some c, directory_dots valid)

  stored-by_room :
      validate_name u c.channel_name ≡ ok tt
      → channel_taken c db ≡ false
      → (get_by_room room_id stored).1 ≡ found
  stored-by_room valid h =
      let fresh : has_key (λ d. d.room_id) room_id db.channels ≡ false = ground arith in
      rw
        (
          get_by_room_eq room_id stored sound,
          first-append (λ d. d.room_id == room_id) db.channels (c ∷ []) fresh,
          eq_refl room_id,
        )
        (validated-c valid)

  stored-by_name :
      (spelling : String)
      → u.to_lowercase spelling ≡ u.to_lowercase name
      → validate_name u c.channel_name ≡ ok tt
      → channel_taken c db ≡ false
      → (get_by_name u spelling stored).1 ≡ found
  stored-by_name spelling same valid h =
      let fresh : has_key (λ d. d.channel_name) c.channel_name db.channels ≡ false = ground arith in
      rw
        (
          get_by_name_eq u spelling stored sound,
          same,
          first-append (λ d. d.channel_name == c.channel_name) db.channels (c ∷ []) fresh,
          eq_refl c.channel_name,
        )
        (validated-c valid)

  provisioned_ok :
      (r : fs.State × Result (Unit {0})) (d : Channel)
      → (provisioned fs c stored r).2 ≡ ok d
      → (d ≡ c) × ((provisioned fs c stored r).0 ≡ stored)
  provisioned_ok (st', ok _) d h = ground arith
  provisioned_ok (st', err e) d h = ground arith

  provisioned_err :
      (r : fs.State × Result (Unit {0})) (e : Error)
      → (provisioned fs c stored r).2 ≡ err e
      → ((provisioned fs c stored r).0 ≡ stored) × (r.1 ≡ err e)
  provisioned_err (st', ok _) e h = ground arith
  provisioned_err (st', err f) e h = ground arith

  -- A channel that `create_channel` returns over a sound connection is the one that was asked for,
  -- stored under the lower-case name. It is read back by its room, and by every spelling that has the
  -- lower case of the name that was given, unless the workspace path itself holds "..": then both
  -- look-ups refuse its directory.
  pub create_channel-found :
      (d : Channel) (spelling : String)
      → u.to_lowercase spelling ≡ u.to_lowercase name
      → call.2 ≡ ok d
      → (d ≡ c)
        × (d.channel_name ≡ u.to_lowercase name)
        × ((get_by_room room_id call.0).1 ≡ found)
        × ((get_by_name u spelling call.0).1 ≡ found)
  create_channel-found d spelling spelled h = elim (Result-cases (validate_name u c.channel_name)) [
    | inr (e, invalid) ↦ absurd (cc (h, ap (λ (r : Outcome fs). r.2) (call_invalid e invalid)))
    | inl (_, valid) ↦ elim (Bool-cases (channel_taken c db)) [
      | inl taken ↦ absurd (cc (h, ap (λ (r : Outcome fs). r.2) (call_taken valid taken)))
      | inr free ↦
          let eq = call_fresh valid free in
          let (same, row) = provisioned_ok _ d (rw eq at h) in
          let left = ap (λ (r : Outcome fs). r.0) eq ∙ row in
          (
            same,
            ap (λ (x : Channel). x.channel_name) same,
            rw left (stored-by_room valid free),
            rw left (stored-by_name spelling spelled valid free),
          )
    ]
  ]

  -- A call that fails over a sound connection leaves the database as it was, or has stored the
  -- channel before the work on its directory failed.
  pub create_channel-fails :
      (e : Error)
      → call.2 ≡ err e
      → (call.0 ≡ db)
        ⊎ ((call.0 ≡ stored) × ((provision fs workspace_path c.directory st).1 ≡ err e))
  create_channel-fails e h = elim (Result-cases (validate_name u c.channel_name)) [
    | inr (f, invalid) ↦ inl (ap (λ (r : Outcome fs). r.0) (call_invalid f invalid))
    | inl (_, valid) ↦ elim (Bool-cases (channel_taken c db)) [
      | inl taken ↦ inl (ap (λ (r : Outcome fs). r.0) (call_taken valid taken))
      | inr free ↦
          let eq = call_fresh valid free in
          let (row, failed) = provisioned_err _ e (rw eq at h) in
          inr (ap (λ (r : Outcome fs). r.0) eq ∙ row, failed)
    ]
  ]

provisioned_failed :
    (fs : FileSystem) (c : Channel) (db : Db) (r : fs.State × Result (Unit {0})) (e : Error)
    → r.1 ≡ err e
    → provisioned fs c db r ≡ (db, r.0, err e)
provisioned_failed fs c db (st, ok _) e h = absurd (cc)
provisioned_failed fs c db (st, err f) e h = ap (λ g. (db, st, err g)) (ground arith)

taken-stored :
    (c d : Channel) (db : Db)
    → c.channel_name ≡ d.channel_name
    → channel_taken d (with_channels (db.channels ++ c ∷ []) db) ≡ true
taken-stored c d db same = ground (
  arith,
  any-append (λ x. x.channel_name == d.channel_name) db.channels (c ∷ []),
  eq_iff c.channel_name d.channel_name,
)

-- Over a sound connection, with a valid name and with neither the name nor the room taken: when the
-- work on the directory fails, the call fails but the channel stays, and creating it again is
-- refused, whatever the file system answers by then.
pub create_channel-retry :
    (fs : FileSystem) (u : Unicode) (workspace_path name room_id uuid now : String) (db : Db)
    (st : fs.State) (e : Error) (uuid' now' : String) (st' : fs.State)
    → db.fault ≡ none
    → validate_name u (u.to_lowercase name) ≡ ok tt
    → channel_taken (new_channel u workspace_path name room_id uuid now) db ≡ false
    → (provision fs workspace_path (join workspace_path (u.to_lowercase name)) st).1 ≡ err e
    → let first_call = create_channel fs u workspace_path name room_id uuid now db st in
      (first_call.2 ≡ err e)
      × ((create_channel fs u workspace_path name room_id uuid' now' first_call.0 st').2
          ≡ err (message "Channel name or room already exists"))
create_channel-retry fs u ws name room_id uuid now db st e uuid' now' st' sound valid free failed =
    let c = new_channel u ws name room_id uuid now in
    let rows = with_channels (db.channels ++ c ∷ []) db in
    rw
      (
        call_fresh fs u ws name room_id uuid now db sound st valid free,
        provisioned_failed fs c rows (provision fs ws c.directory st) e failed,
      )
      (
        refl,
        rw (
            call_taken fs u ws name room_id uuid' now' rows sound st' valid
              (taken-stored c (new_channel u ws name room_id uuid' now') db refl)),
      )
