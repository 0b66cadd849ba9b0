-- ===== src/Orchestrator/Dispatch/Agreement.antt =====
-- src/orchestrator.rs: the bus and the stored bindings under DISPATCH commands.
use gorp_rs.Base.{
  String, Bool, true, false, ◌≡◌, refl, sym, ap, ◌∙◌, List, [], ◌∷◌, Option, none, some, Result, ok,
  err, arith, inl, inr, if◌then◌else◌,
}
use gorp_rs.Text.{◌^^◌}
use gorp_rs.Database.{Db, Channel, execute}
use gorp_rs.Session.Files.{FileSystem}
use gorp_rs.Session.Channels.Keys.{create_channel-db}
use gorp_rs.Text.{Unicode}
use gorp_rs.Session.Channels.{create_channel, insert_channel, delete_channel, list_all}
use gorp_rs.Session.Bindings.{bind_channel, unbind_channel, list_bindings_for_session}
use gorp_rs.Session.Bindings.Laws.{
  lookup, lookup-bind, lookup-unbind, bind_channel_eq, unbind_channel_eq,
}
use gorp_rs.Bus.{
  Broadcast, MessageBus, BusMessage, BusResponse, MessageSource, resolve_target, publish_inbound,
  publish_response,
}
use gorp_rs.Bus
use gorp_rs.Bus.Laws.{resolve_target-writes}
use gorp_rs.Bus.Restart.{target_of}
use gorp_rs.Scheduler.Execute.{Env}
use gorp_rs.Orchestrator.Commands
use gorp_rs.Orchestrator.Commands.{DispatchCommand, parse}
use gorp_rs.Orchestrator.Dispatch.{
  World, create_session, unbind_all, unbind_listed, delete_session, join_found, leave_session,
  tell_found, publish_all, broadcast_to, run_command, handle_dispatch, notice, forwarded, found,
}

-- A step that leaves the connection and the bindings as they are.
abbrev pub Keeps : Db → Db → Type 0
Keeps db db' = (db'.fault ≡ db.fault) × (db'.channel_bindings ≡ db.channel_bindings)

insert_channel-Keeps : (c : Channel) (db : Db) → Keeps db (insert_channel c db).0
unfolding insert_channel execute
insert_channel-Keeps c db = ground arith

delete_channel-Keeps : (name : String) (db : Db) → Keeps db (delete_channel name db).0
unfolding delete_channel execute
delete_channel-Keeps name db = ground arith

create_channel-Keeps :
    (fs : FileSystem) (u : Unicode) (ws name room_id uuid now : String) (db : Db) (st : fs.State)
    → Keeps db (create_channel fs u ws name room_id uuid now db st).0
create_channel-Keeps fs u ws name room_id uuid now db st =
    elim (create_channel-db fs u ws name room_id uuid now db st) [
      | inl e ↦ rw e (refl, refl)
      | inr e ↦ rw e (insert_channel-Keeps _ db)
    ]

module _ (env : Env) (fs : FileSystem) (b : Broadcast) where
  -- The connection is sound, and the bus routes each channel as the stored bindings do.
  abbrev pub Agree : Db → MessageBus b → Type 0
  Agree db bus =
      (db.fault ≡ none)
      × ((q d : String) → resolve_target b bus q d ≡ target_of (lookup q d db.channel_bindings))

  abbrev pub Agrees : World env fs b → Type 0
  Agrees w = Agree w.db w.bus

  pub Keeps-Agree :
      (db db' : Db) (bus bus' : MessageBus b)
      → Keeps db db'
      → ((q d : String) → resolve_target b bus' q d ≡ resolve_target b bus q d)
      → Agree db bus
      → Agree db' bus'
  Keeps-Agree db db' bus bus' (fault, rows) same (sound, agree) =
      (fault ∙ sound, λ q d. same q d ∙ agree q d ∙ ap (λ r. target_of (lookup q d r)) (sym rows))

  resolve-publish_inbound :
      (bus : MessageBus b) (msg : BusMessage) (q d : String)
      → resolve_target b (publish_inbound b bus msg) q d ≡ resolve_target b bus q d
  unfolding resolve_target publish_inbound
  resolve-publish_inbound bus msg q d = refl

  pub resolve-publish_response :
      (bus : MessageBus b) (resp : BusResponse) (q d : String)
      → resolve_target b (publish_response b bus resp) q d ≡ resolve_target b bus q d
  unfolding resolve_target publish_response
  resolve-publish_response bus resp q d = refl

  -- Both bound, or both unbound.
  bound-Agrees :
      (w : World env fs b) (p c s : String)
      → Agrees w
      → Agrees (record w { db = (bind_channel p c s w.db).0; bus = Bus.bind_channel b w.bus p c s })
  bound-Agrees w p c s (sound, agree) = rw (bind_channel_eq p c s w.db sound) (
    sound,
    λ q d. ground (
      arith,
      (resolve_target-writes b w.bus p c s q d).0,
      lookup-bind p c s q d w.db.channel_bindings,
      agree q d,
    ),
  )

  unbound-Agrees :
      (w : World env fs b) (p c : String)
      → Agrees w
      → Agrees (record w { db = (unbind_channel p c w.db).0; bus = Bus.unbind_channel b w.bus p c })
  unbound-Agrees w p c (sound, agree) = rw (unbind_channel_eq p c w.db sound) (
    sound,
    λ q d. ground (
      arith,
      (resolve_target-writes b w.bus p c "" q d).1,
      lookup-unbind p c q d w.db.channel_bindings,
      agree q d,
    ),
  )

  unbind_all-Agrees :
      (bindings : List (String × String)) (w : World env fs b)
      → Agrees w
      → Agrees (unbind_all env fs b bindings w)
  unfolding unbind_all
  unbind_all-Agrees [] w h = h
  unbind_all-Agrees ((p, c) ∷ bindings) w h = unbind_all-Agrees bindings _ (unbound-Agrees w p c h)

  delete-Agrees :
      (name : String) (listed : Result (List (String × String))) (w : World env fs b)
      → Agrees w
      → Agrees (record (unbind_listed env fs b listed w) {
        db = (delete_channel name (unbind_listed env fs b listed w).db).0;
      })
  delete-Agrees name (ok bindings) w h =
      let w' = unbind_all env fs b bindings w in
      Keeps-Agree w'.db (delete_channel name w'.db).0 w'.bus w'.bus
        (delete_channel-Keeps name w'.db) (λ q d. refl) (unbind_all-Agrees bindings w h)
  delete-Agrees name (err e) w h =
      Keeps-Agree w.db (delete_channel name w.db).0 w.bus w.bus (delete_channel-Keeps name w.db)
        (λ q d. refl) h

  join-Agrees :
      (source : MessageSource) (name : String) (looked_up : Result (Option Channel))
      (w : World env fs b)
      → Agrees w
      → Agrees (join_found env fs b source name looked_up w).0
  unfolding join_found
  join-Agrees source name (err e) w h = h
  join-Agrees source name (ok none) w h = h
  join-Agrees source name (ok (some ch)) w h = bound-Agrees w _ _ name h

  tell-Agrees :
      (msg : BusMessage) (now name message : String) (looked_up : Result (Option Channel))
      (w : World env fs b)
      → Agrees w
      → Agrees (tell_found env fs b msg now name message looked_up w).0
  unfolding tell_found
  tell-Agrees msg now name message (err e) w h = h
  tell-Agrees msg now name message (ok none) w h = h
  tell-Agrees msg now name message (ok (some ch)) w h =
      let sent = forwarded env fs b msg "-tell" name message now in
      Keeps-Agree w.db w.db w.bus (publish_inbound b w.bus sent) (refl, refl)
        (resolve-publish_inbound w.bus sent) h

  resolve-publish_all :
      (msg : BusMessage) (now message : String) (channels : List Channel) (bus : MessageBus b)
      (q d : String)
      → resolve_target b (publish_all env fs b msg now message channels bus) q d
        ≡ resolve_target b bus q d
  unfolding publish_all
  resolve-publish_all msg now message [] bus q d = refl
  resolve-publish_all msg now message (ch ∷ channels) bus q d =
      resolve-publish_all msg now message channels _ q d ∙ go ch.is_dispatch_room
    where
      go :
          (room : Bool)
          → resolve_target b
              (if room
                then bus
                else publish_inbound b bus (
                    forwarded env fs b msg ("-bc-" ^^ ch.channel_name) ch.channel_name message now))
              q
              d
            ≡ resolve_target b bus q d
      go true = refl
      go false = resolve-publish_inbound bus _ q d

  broadcast-Agrees :
      (msg : BusMessage) (now message : String) (listed : Result (List Channel))
      (w : World env fs b)
      → Agrees w
      → Agrees (broadcast_to env fs b msg now message listed w).0
  unfolding broadcast_to
  broadcast-Agrees msg now message (err e) w h = h
  broadcast-Agrees msg now message (ok channels) w h =
      Keeps-Agree w.db w.db w.bus (publish_all env fs b msg now message channels w.bus) (refl, refl)
        (resolve-publish_all msg now message channels w.bus) h

  run_command-Agrees :
      (ws uuid now : String) (msg : BusMessage) (cmd : DispatchCommand) (w : World env fs b)
      → Agrees w
      → Agrees (run_command env fs b ws uuid now msg cmd w).0
  unfolding run_command create_session delete_session leave_session
  run_command-Agrees ws uuid now msg Commands.help w h = h
  run_command-Agrees ws uuid now msg (Commands.create name workspace) w h =
      let room_id = "bus:" ^^ name in
      Keeps-Agree w.db (create_channel fs env.unicode ws name room_id uuid now w.db w.files).0 w.bus
        w.bus (create_channel-Keeps fs env.unicode ws name room_id uuid now w.db w.files)
        (λ q d. refl) h
  run_command-Agrees ws uuid now msg (Commands.delete name) w h =
      delete-Agrees name (list_bindings_for_session name w.db).1 w h
  run_command-Agrees ws uuid now msg Commands.list w h = h
  run_command-Agrees ws uuid now msg (Commands.status name) w h = h
  run_command-Agrees ws uuid now msg (Commands.join name) w h =
      join-Agrees msg.source name (found env fs b name w) w h
  run_command-Agrees ws uuid now msg Commands.leave w h = unbound-Agrees w _ _ h
  run_command-Agrees ws uuid now msg (Commands.tell name message) w h =
      tell-Agrees msg now name message (found env fs b name w) w h
  run_command-Agrees ws uuid now msg (Commands.read name count) w h = h
  run_command-Agrees ws uuid now msg (Commands.broadcast message) w h =
      broadcast-Agrees msg now message (list_all w.db).1 w h
  run_command-Agrees ws uuid now msg (Commands.unknown text) w h = h

  pub handle_dispatch-Agrees :
      (ws uuid now : String) (msg : BusMessage) (w : World env fs b)
      → Agrees w
      → Agrees (handle_dispatch env fs b ws uuid now msg w)
  unfolding handle_dispatch
  handle_dispatch-Agrees ws uuid now msg w h =
      let answer = run_command env fs b ws uuid now msg (parse env msg.body) w in
      Keeps-Agree answer.0.db answer.0.db answer.0.bus
        (publish_response b answer.0.bus (notice env fs b answer.1 now)) (refl, refl)
        (resolve-publish_response answer.0.bus (notice env fs b answer.1 now))
        (run_command-Agrees ws uuid now msg (parse env msg.body) w h)
