-- ===== src/Session/Channels/Keys.antt =====
-- gorp-core/src/session.rs: the keys of the table `channels` under every method
-- that writes it.
use gorp_rs.Base.{
  String, Bool, true, false, ◌≡◌, refl, Option, none, some, Result, ok, err, arith, subst, ap,
  ◌>>=◌ as bind, Distinct, Option-cases, Result-cases, inl, inr, ◌≡◌, refl, ◌⊎◌, ◌==◌,
}
use gorp_rs.Text.{Unicode}
use gorp_rs.Sql.{query_row, update, insert}
use gorp_rs.Sql.Laws.{Distinct-update, Distinct-delete, Distinct-insert}
use gorp_rs.Database.{
  Channel, Db, Op, query_ok, query_fault, ◌>>◌, return, execute, execute_ok, execute_err,
  execute_fault, query, delete_channels,
}
use gorp_rs.Session.Files.{FileSystem, provision}
use gorp_rs.Session.Channels.{
  channel_taken, insert_channel, inserted, provisioned, create_channel, new_channel, validate_name,
  delete_by_room, update_channels,
}
use gorp_rs.Session.Dispatch.{dispatch_row, create_dispatch_channel}

-- No two channels share a name or a room.
abbrev pub HasKeys : Db → Type 0
HasKeys db = Distinct (λ c. c.channel_name) db.channels × Distinct (λ c. c.room_id) db.channels

-- What a statement must show: a table that it commits has its keys.
abbrev Commits : Result Db → Type 0
Commits (ok db) = HasKeys db
Commits (err e) = Unit

committed : (r : Result Db) (db : Db) → r ≡ ok db → Commits r → HasKeys db
committed (ok db') db e h = subst HasKeys (ap (λ r. elim r [ ok d ↦ d | err f ↦ db ]) e) h
committed (err f) db e h = absurd (cc)

execute-HasKeys :
    (f : Db → Result Db) (db : Db) → Commits (f db) → HasKeys db → HasKeys (execute f db).0
execute-HasKeys f db keeps h = elim (Option-cases db.fault) [
  | inr (e, broken) ↦ rw (execute_fault f db e broken) h
  | inl sound ↦ elim (Result-cases (f db)) [
    | inl (db', done) ↦ rw (execute_ok f db db' sound done) (committed (f db) db' done keeps)
    | inr (e, refused) ↦ rw (execute_err f db e sound refused) h
  ]
]

pub update-HasKeys :
    (p : Channel → Bool) (f : Channel → Channel)
    → ((c : Channel) → (f c).channel_name ≡ c.channel_name)
    → ((c : Channel) → (f c).room_id ≡ c.room_id)
    → (db : Db) → HasKeys db
    → HasKeys (update_channels p f db).0
update-HasKeys p f name room db (names, rooms) =
    execute-HasKeys (λ d. ok (record d { channels = update p f d.channels })) db
      (
        Distinct-update (λ c. c.channel_name) p f name db.channels names,
        Distinct-update (λ c. c.room_id) p f room db.channels rooms,
      )
      (names, rooms)

insert-Commits :
    (c : Channel) (db : Db) (taken : Bool)
    → channel_taken c db ≡ taken
    → HasKeys db
    → Commits (bind (insert taken c db.channels) (λ rows. ok (record db { channels = rows })))
insert-Commits c db true h keys = tt
insert-Commits c db false h (names, rooms) = (
  Distinct-insert (λ d. d.channel_name) c db.channels (ground arith) names,
  Distinct-insert (λ d. d.room_id) c db.channels (ground arith) rooms,
)

insert-HasKeys : (c : Channel) (db : Db) → HasKeys db → HasKeys (insert_channel c db).0
unfolding insert_channel
insert-HasKeys c db h =
    execute-HasKeys
      (λ d.
        bind (insert (channel_taken c d) c d.channels) (λ rows. ok (record d { channels = rows })))
      db (insert-Commits c db (channel_taken c db) refl h) h

pub delete-HasKeys :
    (p : Channel → Bool) (db : Db)
    → HasKeys db
    → HasKeys (execute (λ d. ok (delete_channels p d)) db).0
delete-HasKeys p db (names, rooms) =
    execute-HasKeys (λ d. ok (delete_channels p d)) db
      (
        Distinct-delete (λ c. c.channel_name) p db.channels names,
        Distinct-delete (λ c. c.room_id) p db.channels rooms,
      )
      (names, rooms)

query-HasKeys : {A : Type 0} (f : Db → Result A) (db : Db) → HasKeys db → HasKeys (query f db).0
query-HasKeys f db h = elim (Option-cases db.fault) [
  | inr (e, broken) ↦ rw (query_fault f db e broken) h
  | inl sound ↦ rw (query_ok f db sound) h
]

bind-HasKeys :
    {A B : Type 0} (r : Db × Result A) (f : A → Op B)
    → HasKeys r.0
    → ((a : A) (d : Db) → HasKeys d → HasKeys (f a d).0)
    → HasKeys (elim r.1 as (λ _. Db × Result B) [ ok a ↦ f a r.0 | err e ↦ (r.0, err e) ]).0
bind-HasKeys (db, ok a) f h keeps = keeps a db h
bind-HasKeys (db, err e) f h keeps = h

-- `delete_by_room` after its look-up.
abbrev delete_found : String → Option Channel → Op (Option String)
delete_found room_id found = elim found as (λ _. Op (Option String)) [
  | none ↦ return none
  | some c ↦
      execute (λ d. ok (delete_channels (λ x. x.room_id == room_id) d))
      >> return (some c.channel_name)
]

delete_found-HasKeys :
    (room_id : String) (found : Option Channel) (db : Db)
    → HasKeys db
    → HasKeys (delete_found room_id found db).0
delete_found-HasKeys room_id none db h = h
delete_found-HasKeys room_id (some c) db h =
    bind-HasKeys (execute (λ d. ok (delete_channels (λ x. x.room_id == room_id) d)) db)
      (λ _. return (some c.channel_name)) (delete-HasKeys (λ x. x.room_id == room_id) db h)
      (λ _ d k. k)

pub delete_by_room-HasKeys :
    (room_id : String) (db : Db) → HasKeys db → HasKeys (delete_by_room room_id db).0
unfolding delete_by_room
delete_by_room-HasKeys room_id db h =
    bind-HasKeys (query (λ d. ok (query_row (λ c. c.room_id == room_id) d.channels)) db)
      (delete_found room_id)
      (query-HasKeys (λ d. ok (query_row (λ c. c.room_id == room_id) d.channels)) db h)
      (delete_found-HasKeys room_id)

pub create_dispatch_channel-HasKeys :
    (room_id uuid now : String) (db : Db)
    → HasKeys db
    → HasKeys (create_dispatch_channel room_id uuid now db).0
unfolding create_dispatch_channel
create_dispatch_channel-HasKeys room_id uuid now db h =
    let c = dispatch_row room_id uuid now in
    bind-HasKeys (insert_channel c db) (λ _. return c) (insert-HasKeys c db h) (λ _ d k. k)

provisioned-HasKeys :
    (fs : FileSystem) (c : Channel) (db : Db) (r : fs.State × Result (Unit {0}))
    → HasKeys db
    → HasKeys (provisioned fs c db r).0
provisioned-HasKeys fs c db (st, ok _) h = h
provisioned-HasKeys fs c db (st, err e) h = h

inserted-HasKeys :
    (fs : FileSystem) (ws : String) (c : Channel) (st : fs.State) (r : Db × Result (Unit {0}))
    → HasKeys r.0
    → HasKeys (inserted fs ws c st r).0
unfolding inserted
inserted-HasKeys fs ws c st (db, ok _) h =
    provisioned-HasKeys fs c db (provision fs ws c.directory st) h
inserted-HasKeys fs ws c st (db, err e) h = h

pub create_channel-HasKeys :
    (fs : FileSystem) (u : Unicode) (ws name room_id uuid now : String) (db : Db) (st : fs.State)
    → HasKeys db
    → HasKeys (create_channel fs u ws name room_id uuid now db st).0
unfolding create_channel
create_channel-HasKeys fs u ws name room_id uuid now db st h =
    let c = new_channel u ws name room_id uuid now in
    elim (Result-cases (validate_name u c.channel_name)) [
      | inl (_, valid) ↦
          rw (valid, create_channel) (inserted-HasKeys fs ws c st _ (insert-HasKeys c db h))
      | inr (e, invalid) ↦ rw (invalid, create_channel) h
    ]

provisioned-db :
    (fs : FileSystem) (c : Channel) (db : Db) (r : fs.State × Result (Unit {0}))
    → (provisioned fs c db r).0 ≡ db
provisioned-db fs c db (st, ok _) = refl
provisioned-db fs c db (st, err e) = refl

inserted-db :
    (fs : FileSystem) (ws : String) (c : Channel) (st : fs.State) (r : Db × Result (Unit {0}))
    → (inserted fs ws c st r).0 ≡ r.0
unfolding inserted
inserted-db fs ws c st (db, ok _) = provisioned-db fs c db (provision fs ws c.directory st)
inserted-db fs ws c st (db, err e) = refl

-- Whatever it returns, `create_channel` does nothing to the database, or one INSERT.
pub create_channel-db :
    (fs : FileSystem) (u : Unicode) (ws name room_id uuid now : String) (db : Db) (st : fs.State)
    → ((create_channel fs u ws name room_id uuid now db st).0 ≡ db)
      ⊎ ((create_channel fs u ws name room_id uuid now db st).0
          ≡ (insert_channel (new_channel u ws name room_id uuid now) db).0)
unfolding create_channel
create_channel-db fs u ws name room_id uuid now db st =
    let c = new_channel u ws name room_id uuid now in
    elim (Result-cases (validate_name u c.channel_name)) [
      | inl (_, valid) ↦ inr (rw (valid, create_channel) (inserted-db fs ws c st _))
      | inr (e, invalid) ↦ inl (rw (invalid, create_channel) refl)
    ]
