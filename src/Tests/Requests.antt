-- ===== src/Tests/Requests.antt =====
-- internal/server/http.go: one client is kicked.
use soundswamp.Prelude.{ℕ, true, false, Option, some, List, [], ◌∷◌}
use soundswamp.Prelude.Table.{string_eq}
use soundswamp.Prelude.Text.{codes}
use soundswamp.Prelude.Float.{Float, tenths}
use soundswamp.Session.{new_client}
use soundswamp.Stream.{new_manager}
use soundswamp.Latency.{new_equalizer}
use soundswamp.Server.{Server}
use soundswamp.Server.Http.{WsConn, Payload, StateUpdate, HttpServer}

abbrev one_session : Server tenths
one_session = record {
  session = record {
    id = codes "S";
    token = codes "t";
    created_at = 0;
    clients = (codes "a", 0) ∷ [];
    heap = λ r. new_client tenths (codes "a") (codes "n") (codes "p") 5 0 0;
    next_ref = 1;
    has_on_join = true;
    has_on_leave = true;
  };
  stream = new_manager;
  clock = [];
  latency = new_equalizer tenths true true;
}

abbrev web : HttpServer tenths
web = record { port = 8080; udp_port = 8082; active = true; server = one_session; ws_hub = [] }

abbrev listening : WsConn
listening = record { send = []; capacity = 1; closed = false }

abbrev to_json : StateUpdate tenths → Option (List ℕ)
to_json u = some u.session_id

abbrev to_png : Payload → ℕ → Option (List ℕ)
to_png p size = some p.token
