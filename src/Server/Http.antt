-- ===== src/Server/Http.antt =====
-- internal/server/http.go: the handlers of the web interface and the WebSocket hub. Requests come decoded;
-- JSON, the PNG encoder and the search for the local address are arguments. Which path leads to which
-- handler is left to net/http.
use soundswamp.Prelude.{
  ℕ, ◌+◌, Bool, Option, none, some, List, [], ◌∷◌, ◌++◌, ltb, if◌then◌else◌, length, map,
}
use soundswamp.Prelude.Table.{GoString}
use soundswamp.Prelude.Text.{codes}
use soundswamp.Prelude.Float.{Float}
use soundswamp.Session.{ClientInfo}
use soundswamp.Session.Registry
use soundswamp.Session.Registry.{Session, client_list}
use soundswamp.Stream
use soundswamp.Stream.{stats}
use soundswamp.Server.{Server, handle_kick, handle_channel_assign}

-- wsConn, without its connection: the messages that wait in `send`, and how many may.
pub record WsConn : Type 0 where
  pub send : List (List ℕ)
  pub capacity : ℕ
  pub closed : Bool

abbrev pub WebSocketHub : Type 0
WebSocketHub = List WsConn

unfoldable pub new_web_socket_hub : WebSocketHub
new_web_socket_hub = []

-- What the select of Broadcast does for a client: a full buffer is skipped.
unfoldable pub offer : List ℕ → WsConn → WsConn
offer bytes c =
    if ltb (length c.send) c.capacity then (record c { send = c.send ++ (bytes ∷ []) }) else c

-- Broadcast of a message whose JSON is given; `none` is a failure to encode it.
unfoldable pub broadcast : Option (List ℕ) → WebSocketHub → WebSocketHub
unfolding offer
broadcast none hub = hub
broadcast (some bytes) hub = map (offer bytes) hub

-- Payload of internal/discovery.
pub record Payload : Type 0 where
  pub ip : GoString
  pub tcp_port : ℕ
  pub udp_port : ℕ
  pub token : GoString
  pub session : GoString

module _ (f : Float) where
  -- The JSON objects, the image and the texts that the handlers answer with.
  pub data Body : Type 0 where
    inactive : Body
    session_view : GoString → ℕ → List (ClientInfo f) → ℕ → f.Carrier → ℕ → ℕ → Body
    stats_view : ℕ → ℕ → f.Carrier → ℕ → Body
    status_ok : Body
    text : GoString → Body
    image : List ℕ → Body
    empty : Body

  pub record Response : Type 0 where
    pub status : ℕ
    pub content_type : GoString
    pub cache_control : GoString
    pub body : Body

  -- BroadcastUpdate's message.
  pub record StateUpdate : Type 0 where
    pub session_id : GoString
    pub clients : List (ClientInfo f)
    pub global_delay : f.Carrier
    pub client_count : ℕ

  -- HTTPServer: its ports, what it is configured with, and its hub. `active` is whether the session
  -- manager has a session.
  pub record HttpServer : Type 0 where
    pub port : ℕ
    pub udp_port : ℕ
    pub active : Bool
    pub server : Server f
    pub ws_hub : WebSocketHub

  -- NewHTTPServer.
  unfoldable pub new_http_server : ℕ → ℕ → Bool → Server f → HttpServer
  new_http_server port udp_port active server = record {
    port = port;
    udp_port = udp_port;
    active = active;
    server = server;
    ws_hub = new_web_socket_hub;
  }

  -- writeJSON.
  unfoldable pub write_json : ℕ → Body → Response
  write_json status body = record {
    status = status;
    content_type = codes "application/json";
    cache_control = [];
    body = body;
  }

  -- http.Error, with its documented content type.
  unfoldable pub http_error : GoString → ℕ → Response
  http_error message status = record {
    status = status;
    content_type = codes "text/plain; charset=utf-8";
    cache_control = [];
    body = text message;
  }

  module _ (encode : StateUpdate → Option (List ℕ)) where
    unfoldable pub broadcast_update : HttpServer → HttpServer
    broadcast_update h =
        if h.active
        then (record h {
          ws_hub =
              broadcast
                (encode (record {
                  session_id = h.server.session.id;
                  clients = client_list f h.server.session;
                  global_delay = h.server.latency.global_delay;
                  client_count = Registry.client_count f h.server.session;
                }))
                h.ws_hub;
        })
        else h

    -- handleChannelAssign, with what decoding its body gives.
    unfoldable pub serve_channel : Option (GoString × ℕ) → HttpServer → Response × HttpServer
    unfolding broadcast_update
    serve_channel none h = (http_error (codes "invalid request body") 400, h)
    serve_channel (some (id, channel)) h =
        let (s, known) = handle_channel_assign f id channel h.server in
        if h.active
        then (if known
            then (write_json 200 status_ok, broadcast_update (record h { server = s }))
            else (http_error (codes "client not found") 404, h))
        else (http_error (codes "no active session") 503, h)

    -- handleKick, likewise.
    unfoldable pub serve_kick : Option GoString → HttpServer → Response × HttpServer
    unfolding broadcast_update
    serve_kick none h = (http_error (codes "invalid request body") 400, h)
    serve_kick (some id) h =
        if h.active
        then (
          write_json 200 status_ok,
          broadcast_update (record h { server = handle_kick f id h.server }),
        )
        else (http_error (codes "no active session") 503, h)

  -- handleQR, with the local address if it was found and the encoder of the image.
  unfoldable pub serve_qr :
      Option GoString → (Payload → ℕ → Option (List ℕ)) → HttpServer → Response
  serve_qr local_ip generate_png h =
      if h.active
      then (elim local_ip [
        | none ↦ http_error (codes "failed to detect local IP") 500
        | some ip ↦
            elim (generate_png
              (record {
                ip = ip;
                tcp_port = h.port + 1;
                udp_port = h.udp_port;
                token = h.server.session.token;
                session = h.server.session.id;
              })
              512) [
                | none ↦ http_error (codes "failed to generate QR code") 500
                | some png ↦ record {
                  status = 200;
                  content_type = codes "image/png";
                  cache_control = codes "no-cache, no-store";
                  body = image png;
                }
              ]
      ])
      else http_error (codes "no active session") 503

  -- handleSession.
  unfoldable pub serve_session : HttpServer → Response
  serve_session h =
      let s = h.server.session in
      if h.active
      then write_json 200 (
          session_view s.id s.created_at (client_list f s) (Registry.client_count f s)
            h.server.latency.global_delay (stats h.server.stream).0 (stats h.server.stream).1)
      else write_json 200 inactive

  -- handleStats.
  unfoldable pub serve_stats : HttpServer → Response
  serve_stats h = write_json 200 (
      stats_view (stats h.server.stream).0 (stats h.server.stream).1 h.server.latency.global_delay
        (Stream.client_count h.server.stream))

  -- handleAppleCaptivePortal and handleAndroidCaptivePortal.
  unfoldable pub apple_captive_portal : Response
  apple_captive_portal = record {
    status = 200;
    content_type = codes "text/html";
    cache_control = [];
    body = text (codes "<HTML><HEAD><TITLE>Success</TITLE></HEAD><BODY>Success</BODY></HTML>");
  }

  unfoldable pub android_captive_portal : Response
  android_captive_portal = record {
    status = 204;
    content_type = [];
    cache_control = [];
    body = empty;
  }

  -- A request to one of the handlers.
  pub data Request : Type 0 where
    qr : Option GoString → Request
    session stats_of apple android : Request
    channel : Option (GoString × ℕ) → Request
    kick : Option GoString → Request

  module _ (encode : StateUpdate → Option (List ℕ))
      (generate_png : Payload → ℕ → Option (List ℕ)) where
    unfoldable pub serve : Request → HttpServer → Response × HttpServer
    unfolding serve_channel serve_kick serve_qr serve_session serve_stats
    serve (qr local_ip) h = (serve_qr local_ip generate_png h, h)
    serve session h = (serve_session h, h)
    serve stats_of h = (serve_stats h, h)
    serve apple h = (apple_captive_portal, h)
    serve android h = (android_captive_portal, h)
    serve (channel body) h = serve_channel encode body h
    serve (kick body) h = serve_kick encode body h
