-- ===== src/Session/Bindings/Laws.antt =====
-- gorp-core/src/session.rs: what resolving a binding gives after binding and unbinding, and that the
-- lists of bindings agree with it.
use mathlib.Core.Option
use gorp_rs.Base.{
  String, Bool, ◌&&◌, ◌≡◌, Option, none, some, ok, ◌==◌, List, [], ◌∷◌, if◌then◌else◌, arith,
  eq_iff,
}
use gorp_rs.Sql.{delete, query_row, insert_or_replace}
use gorp_rs.Database.{Db, Binding, execute, query}
use gorp_rs.Session.Bindings.{binds, binding, bind_channel, unbind_channel, resolve_binding}

-- Whether two pairs of a platform and a channel are the same.
abbrev pub same : String × String → String × String → Bool
same a b = a.0 == b.0 && a.1 == b.1

-- The session of a channel in the stored bindings.
abbrev pub lookup : String → String → List Binding → Option String
lookup p c rows = Option.map (λ b. b.session_name) (query_row (binds p c) rows)

pub lookup-bind :
    (p c s q d : String) (rows : List Binding)
    → lookup q d (insert_or_replace (binds p c) (binding p c s) rows)
      ≡ (if same (p, c) (q, d) then some s else lookup q d rows)
lookup-bind p c s q d [] = ground (arith, eq_iff p q, eq_iff c d)
lookup-bind p c s q d (b ∷ rows) = ground (
  arith,
  eq_iff p q,
  eq_iff c d,
  eq_iff b.platform_id p,
  eq_iff b.channel_id c,
  eq_iff b.platform_id q,
  eq_iff b.channel_id d,
  lookup-bind p c s q d rows,
)

pub lookup-unbind :
    (p c q d : String) (rows : List Binding)
    → lookup q d (delete (binds p c) rows) ≡ (if same (p, c) (q, d) then none else lookup q d rows)
lookup-unbind p c q d [] = ground arith
lookup-unbind p c q d (b ∷ rows) = ground (
  arith,
  eq_iff p q,
  eq_iff c d,
  eq_iff b.platform_id p,
  eq_iff b.channel_id c,
  eq_iff b.platform_id q,
  eq_iff b.channel_id d,
  lookup-unbind p c q d rows,
)

pub resolve_binding_eq :
    (p c : String) (db : Db)
    → db.fault ≡ none
    → (resolve_binding p c db).1 ≡ ok (lookup p c db.channel_bindings)
unfolding resolve_binding query
resolve_binding_eq p c db sound = ground arith

pub bind_channel_eq :
    (p c s : String) (db : Db)
    → db.fault ≡ none
    → (bind_channel p c s db).0 ≡ record db {
      channel_bindings = insert_or_replace (binds p c) (binding p c s) db.channel_bindings;
    }
unfolding bind_channel execute
bind_channel_eq p c s db sound = ground arith

pub unbind_channel_eq :
    (p c : String) (db : Db)
    → db.fault ≡ none
    → (unbind_channel p c db).0
      ≡ record db { channel_bindings = delete (binds p c) db.channel_bindings }
unfolding unbind_channel execute
unbind_channel_eq p c db sound = ground arith

-- Over a sound connection, a bound channel resolves to its session, an unbound one to none, and no
-- other channel is touched.
pub resolve_binding-bind :
    (p c s q d : String) (db : Db)
    → db.fault ≡ none
    → ((resolve_binding q d (bind_channel p c s db).0).1
        ≡ (if same (p, c) (q, d) then ok (some s) else (resolve_binding q d db).1))
      × ((resolve_binding q d (unbind_channel p c db).0).1
          ≡ (if same (p, c) (q, d) then ok none else (resolve_binding q d db).1))
resolve_binding-bind p c s q d db sound = (
  rw
      (
        bind_channel_eq p c s db sound,
        resolve_binding_eq q d
            (record db {
              channel_bindings = insert_or_replace (binds p c) (binding p c s) db.channel_bindings;
            })
            sound,
        lookup-bind p c s q d db.channel_bindings,
        resolve_binding_eq q d db sound,
      )
      (ground arith),
  rw
      (
        unbind_channel_eq p c db sound,
        resolve_binding_eq q d
            (record db { channel_bindings = delete (binds p c) db.channel_bindings }) sound,
        lookup-unbind p c q d db.channel_bindings,
        resolve_binding_eq q d db sound,
      )
      (ground arith),
)
