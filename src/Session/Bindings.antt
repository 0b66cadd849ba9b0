-- ===== src/Session/Bindings.antt =====
-- gorp-core/src/session.rs, lines 1175-1278: bindings of platform channels to sessions.
pub mod Laws
use mathlib.Core.Option
use gorp_rs.Base.{String, Bool, ◌&&◌, ◌==◌, List, Option, ok, map}
use gorp_rs.Sql.{insert_or_replace, delete, query_row, select}
use gorp_rs.Database.{Db, Binding, Op, execute, query}

-- PRIMARY KEY (platform_id, channel_id).
abbrev pub binds : String → String → Binding → Bool
binds platform_id channel_id b = b.platform_id == platform_id && b.channel_id == channel_id

abbrev pub binding : String → String → String → Binding
binding platform_id channel_id session_name = record {
  platform_id = platform_id;
  channel_id = channel_id;
  session_name = session_name;
}

unfoldable pub bind_channel : String → String → String → Op (Unit {0})
bind_channel platform_id channel_id session_name = execute λ db. ok (record db {
  channel_bindings =
      insert_or_replace (binds platform_id channel_id) (binding platform_id channel_id session_name)
        db.channel_bindings;
})

unfoldable pub unbind_channel : String → String → Op (Unit {0})
unbind_channel platform_id channel_id = execute λ db.
    ok (record db { channel_bindings = delete (binds platform_id channel_id) db.channel_bindings })

unfoldable pub resolve_binding : String → String → Op (Option String)
resolve_binding platform_id channel_id = query λ db. ok (
    Option.map (λ b. b.session_name) (query_row (binds platform_id channel_id) db.channel_bindings))

unfoldable pub list_bindings_for_session : String → Op (List (String × String))
list_bindings_for_session session_name = query λ db. ok (
    map (λ b. (b.platform_id, b.channel_id))
      (select (λ b. b.session_name == session_name) db.channel_bindings))

unfoldable pub list_all_bindings : Op (List (String × String × String))
list_all_bindings =
    query λ db. ok (map (λ b. (b.platform_id, b.channel_id, b.session_name)) db.channel_bindings)
