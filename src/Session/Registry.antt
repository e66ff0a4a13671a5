-- ===== src/Session/Registry.antt =====
-- internal/session/manager.go: Session and Manager. The state is the session with the heap of clients;
-- closed connections and the calls of the two callbacks are the events.
use soundswamp.Prelude.{
  ℕ, suc, Bool, true, false, Option, none, some, List, [], ◌∷◌, ◌++◌, ◌==◌, not, if◌then◌else◌,
  length,
}
use soundswamp.Prelude.Table.{GoString, Table, lookup, insert, delete, string_eq, str_eq}
use soundswamp.Prelude.Float.{Float}
use soundswamp.Session.{Client, ClientInfo, info, is_stale, new_client}
use soundswamp.Session.Ids.{generate_session_id, generate_token, generate_client_id}

pub data Event : Type 0 where
  closed : ℕ → Event
  joined : ℕ → Event
  left : GoString → Event

pub data Error : Type 0 where
  invalid_token no_randomness : Error

module _ (f : Float) where
  -- Session, and the clients that exist. Pointers are numbers below `next_ref`.
  pub record Session : Type 0 where
    pub id : GoString
    pub token : GoString
    pub created_at : ℕ
    pub clients : Table GoString ℕ
    pub heap : ℕ → Client f
    pub next_ref : ℕ
    pub has_on_join : Bool
    pub has_on_leave : Bool

  pub data Result {ℓ} (A : Type ℓ) : Type ℓ where
    ok : A → Result A
    err : Error → Result A

  -- NewSession: the random bytes of the identifier and of the token, and the time. The heap before is
  -- that of a process with no client yet.
  unfoldable pub new_session :
      Option (List ℕ) → Option (List ℕ) → ℕ → (ℕ → Client f) → Result Session
  new_session random_id random_token now heap = elim (generate_session_id random_id) [
    | none ↦ err no_randomness
    | some id ↦ elim (generate_token random_token) [
      | none ↦ err no_randomness
      | some token ↦ ok (record {
        id = id;
        token = token;
        created_at = now;
        clients = [];
        heap = heap;
        next_ref = 0;
        has_on_join = false;
        has_on_leave = false;
      })
    ]
  ]

  unfoldable pub write_heap : ℕ → Client f → (ℕ → Client f) → ℕ → Client f
  write_heap ref c heap = λ r. if r == ref then c else heap r

  -- A method that writes through a pointer.
  unfoldable pub through : ℕ → (Client f → Client f) → Session → Session
  unfolding write_heap
  through ref g s = record s { heap = write_heap ref (g (s.heap ref)) s.heap }

  -- AddClient, with the two readings of the clock and the random bytes of the identifier. It returns
  -- the pointer to the new client.
  unfoldable pub add_client :
      GoString
      → GoString
      → GoString
      → ℕ
      → ℕ
      → ℕ
      → Option (List ℕ)
      → Session
      → Session × Result ℕ × List Event
  unfolding write_heap
  add_client token name platform conn joined_at heartbeat_at random s =
      if not (str_eq token s.token)
      then (s, err invalid_token, [])
      else elim (generate_client_id random) [
        | none ↦ (s, err no_randomness, [])
        | some id ↦
            let ref = s.next_ref in
            (
              record s {
                clients = insert id ref s.clients;
                heap =
                    write_heap ref (new_client f id name platform conn joined_at heartbeat_at)
                      s.heap;
                next_ref = suc ref;
              },
              ok ref,
              if s.has_on_join then joined ref ∷ [] else [],
            )
      ]

  unfoldable pub close_conn : Option ℕ → List Event
  close_conn none = []
  close_conn (some conn) = closed conn ∷ []

  -- RemoveClient.
  unfoldable pub remove_client : GoString → Session → Session × List Event
  unfolding close_conn
  remove_client id s = elim (lookup id s.clients) [
    | none ↦ (s, [])
    | some ref ↦ (
      record s { clients = delete id s.clients },
      close_conn (s.heap ref).tcp_conn ++ (if s.has_on_leave then left id ∷ [] else []),
    )
  ]

  -- GetClient: a pointer, or nil.
  unfoldable pub get_client : GoString → Session → Option ℕ
  get_client id s = lookup id s.clients

  unfoldable pub client_count : Session → ℕ
  client_count s = length s.clients

  unfoldable pub infos : (ℕ → Client f) → Table GoString ℕ → List (ClientInfo f)
  infos heap [] = []
  infos heap ((id, ref) ∷ m) = info f (heap ref) ∷ infos heap m

  -- ClientList.
  unfoldable pub client_list : Session → List (ClientInfo f)
  unfolding infos
  client_list s = infos s.heap s.clients

  -- The identifiers that the scan of EvictStaleClients collects; the scan reads one clock value.
  unfoldable pub stale_ids : ℕ → (ℕ → Client f) → Table GoString ℕ → List GoString
  stale_ids now heap [] = []
  stale_ids now heap ((id, ref) ∷ m) =
      let rest = stale_ids now heap m in if is_stale f now (heap ref) then id ∷ rest else rest

  unfoldable pub remove_all : List GoString → Session → Session × List Event
  remove_all [] s = (s, [])
  remove_all (id ∷ ids) s =
      let (s', events) = remove_client id s in
      let (s'', later) = remove_all ids s' in (s'', events ++ later)

  -- EvictStaleClients.
  unfoldable pub evict_stale_clients : ℕ → Session → Session × List GoString × List Event
  unfolding stale_ids remove_all
  evict_stale_clients now s =
      let stale = stale_ids now s.heap s.clients in
      let (s', events) = remove_all stale s in (s', stale, events)

  -- Manager: the one session, and whether `stopChan` is closed.
  pub record Manager : Type 0 where
    pub session : Option Session
    pub stopped : Bool

  unfoldable pub new_manager : Manager
  new_manager = record { session = none; stopped = false }

  unfoldable pub create_session :
      Option (List ℕ) → Option (List ℕ) → ℕ → (ℕ → Client f) → Manager → Manager × Result Session
  create_session random_id random_token now heap m =
      elim (new_session random_id random_token now heap) [
        | err e ↦ (m, err e)
        | ok s ↦ (record m { session = some s }, ok s)
      ]

  -- One tick of StartHeartbeatMonitor: nothing without a session; the result is what is logged.
  unfoldable pub monitor_tick : ℕ → Manager → Manager × List GoString × List Event
  monitor_tick now m = elim m.session [
    | none ↦ (m, [], [])
    | some s ↦
        let (s', evicted, events) = evict_stale_clients now s in
        (record m { session = some s' }, evicted, events)
  ]

  -- Stop closes the channel; to close it again panics, which is `none`.
  unfoldable pub stop : Manager → Option Manager
  stop m = if m.stopped then none else some (record m { stopped = true })
