-- ===== src/Session.antt =====
-- internal/session/manager.go: clients, the session that holds them, and its identifiers. Session.Clients
-- maps an identifier to a pointer; the clients that are pointed to stand in a heap, since the handlers of
-- internal/server keep such pointers across calls and write through them. Times are nanoseconds.
pub mod Ids
pub mod Registry
pub mod Invariant
pub mod Evict
use soundswamp.Prelude.{
  ℕ, suc, ◌+◌, ◌-◌, ◌*◌, ◌^◌, Bool, true, false, Option, none, some, List, [], ◌∷◌, ◌==◌, ltb,
  if◌then◌else◌, length,
}
use soundswamp.Prelude.Table.{GoString, Table, lookup, insert, delete, string_eq, str_eq}
use soundswamp.Prelude.Text.{codes}
use soundswamp.Prelude.Float.{Float}
use soundswamp.Protocol.ChannelMask

-- 10 seconds.
abbrev pub heartbeat_timeout : ℕ
heartbeat_timeout = 10 * 10 ^ 9

pub data Role : Type 0 where
  host speaker : Role

-- `Role.String`. An int that is no Role prints as "unknown".
pub role_name : Option Role → GoString
role_name (some host) = codes "host"
role_name (some speaker) = codes "speaker"
role_name none = codes "unknown"

module _ (f : Float) where
  open f use {Carrier, lit}

  -- Client, without its mutex. Connections are numbers; the write function is the connection that it
  -- writes to. `Addr` is never set.
  pub record Client : Type 0 where
    pub id : GoString
    pub name : GoString
    pub platform : GoString
    pub tcp_conn : Option ℕ
    pub role : Role
    pub channel_assign : ℕ
    pub joined_at : ℕ
    pub last_heartbeat : ℕ
    pub p95_jitter : Carrier
    pub frame_size : ℕ
    pub app_state : GoString
    pub write_func : Option ℕ

  unfoldable pub update_heartbeat : ℕ → Client → Client
  update_heartbeat now c = record c { last_heartbeat = now }

  -- time.Since(last) > timeout; a heartbeat in the future makes no client stale.
  unfoldable pub is_stale : ℕ → Client → Bool
  is_stale now c = ltb heartbeat_timeout (now - c.last_heartbeat)

  unfoldable pub set_jitter : Carrier → Client → Client
  set_jitter p95_ms c = record c { p95_jitter = p95_ms }

  unfoldable pub set_channel : ℕ → Client → Client
  set_channel ch c = record c { channel_assign = ch }

  unfoldable pub set_frame_size : ℕ → Client → Client
  set_frame_size ms c = record c { frame_size = ms }

  unfoldable pub set_app_state : GoString → Client → Client
  set_app_state state c = record c { app_state = state }

  unfoldable pub set_write_func : ℕ → Client → Client
  set_write_func conn c = record c { write_func = some conn }

  -- Send: the connection that is written to; none before the write function is set.
  unfoldable pub send : Client → Option ℕ
  send c = c.write_func

  -- ClientInfo of internal/protocol/packet.go.
  pub record ClientInfo : Type 0 where
    pub id : GoString
    pub name : GoString
    pub platform : GoString
    pub channel : ℕ
    pub jitter_ms : Carrier
    pub connected : Bool

  unfoldable pub info : Client → ClientInfo
  info c = record {
    id = c.id;
    name = c.name;
    platform = c.platform;
    channel = c.channel_assign;
    jitter_ms = c.p95_jitter;
    connected = true;
  }

  -- The client that AddClient makes.
  unfoldable pub new_client : GoString → GoString → GoString → ℕ → ℕ → ℕ → Client
  new_client id name platform conn joined_at heartbeat_at = record {
    id = id;
    name = name;
    platform = platform;
    tcp_conn = some conn;
    role = speaker;
    channel_assign = ChannelMask.stereo_mix;
    joined_at = joined_at;
    last_heartbeat = heartbeat_at;
    p95_jitter = lit 0;
    frame_size = 10;
    app_state = codes "foreground";
    write_func = none;
  }
