-- ===== src/Session/Invariant.antt =====
-- internal/session/manager.go: the invariant of the client map, and AddClient and RemoveClient.
use soundswamp.Prelude.{
  ◌∙◌, ℕ, suc, ◌<◌, ◌≡◌, ◌≢◌, refl, sym, ◌⊎◌, inl, inr, Option, none, some, List, [], ◌∷◌, ◌++◌,
  if◌then◌else◌, arith, Bool-cases, Option-cases,
}
use soundswamp.Prelude.Table.{
  GoString, Table, lookup, insert, delete, string_eq, str_eq, str_eq_iff, Unique, insert-Unique,
  delete-Unique, lookup-insert_self, lookup-insert_ne, lookup-delete_self, lookup-delete_ne,
}
use soundswamp.Prelude.Float.{Float}
use soundswamp.Session.{
  Client, new_client, update_heartbeat, set_jitter, set_channel, set_frame_size, set_app_state,
  set_write_func,
}
use soundswamp.Session.Ids.{generate_client_id}
use soundswamp.Session.Registry.{
  Event, joined, left, invalid_token, no_randomness, Session, ok, err, write_heap, through,
  add_client, remove_client, close_conn,
}

module _ (f : Float) where
  -- Every entry points at an existing client that bears the entry's identifier.
  abbrev pub Placed : (ℕ → Client f) → ℕ → Table GoString ℕ → Type 0
  Placed heap next [] = Unit {0}
  Placed heap next ((id, ref) ∷ m) = (ref < next) × ((heap ref).id ≡ id) × Placed heap next m

  pub record Inv (s : Session f) : Type 0 where
    pub unique : Unique s.clients
    pub placed : Placed s.heap s.next_ref s.clients

  -- The methods of Client that write.
  pub data Setter : Type 0 where
    heartbeat : ℕ → Setter
    jitter : f.Carrier → Setter
    channel : ℕ → Setter
    frame_size : ℕ → Setter
    app_state : GoString → Setter
    write_func : ℕ → Setter

  unfoldable pub apply : Setter → Client f → Client f
  apply (heartbeat now) = update_heartbeat f now
  apply (jitter p) = set_jitter f p
  apply (channel ch) = set_channel f ch
  apply (frame_size ms) = set_frame_size f ms
  apply (app_state st) = set_app_state f st
  apply (write_func conn) = set_write_func f conn

  pub apply-id : (g : Setter) (c : Client f) → (apply g c).id ≡ c.id
  unfolding apply update_heartbeat set_jitter set_channel set_frame_size set_app_state
      set_write_func
  apply-id (heartbeat now) c = refl
  apply-id (jitter p) c = refl
  apply-id (channel ch) c = refl
  apply-id (frame_size ms) c = refl
  apply-id (app_state st) c = refl
  apply-id (write_func conn) c = refl

  Placed-write :
      (heap : ℕ → Client f) (next ref : ℕ) (c : Client f) (m : Table GoString ℕ)
      → (heap ref).id ≡ c.id
      → Placed heap next m
      → Placed (write_heap f ref c heap) next m
  unfolding write_heap
  Placed-write heap next ref c [] h p = tt
  Placed-write heap next ref c ((id, r) ∷ m) h p =
      (p.0, ground arith, Placed-write heap next ref c m h p.2)

  -- The map is placed in any heap in which the clients bear the same identifiers.
  pub Placed-ids :
      (heap heap' : ℕ → Client f) (next : ℕ) (m : Table GoString ℕ)
      → ((r : ℕ) → (heap' r).id ≡ (heap r).id)
      → Placed heap next m
      → Placed heap' next m
  Placed-ids heap heap' next [] same p = tt
  Placed-ids heap heap' next ((id, r) ∷ m) same p =
      (p.0, same r ∙ p.1, Placed-ids heap heap' next m same p.2)

  pub Placed-new :
      (heap : ℕ → Client f) (next : ℕ) (c : Client f) (m : Table GoString ℕ)
      → Placed heap next m
      → Placed (write_heap f next c heap) (suc next) m
  unfolding write_heap
  Placed-new heap next c [] p = tt
  Placed-new heap next c ((id, r) ∷ m) p = (omega arith, ground arith, Placed-new heap next c m p.2)

  pub Placed-insert :
      (heap : ℕ → Client f) (next ref : ℕ) (id : GoString) (m : Table GoString ℕ)
      → ref < next
      → (heap ref).id ≡ id
      → Placed heap next m
      → Placed heap next (insert id ref m)
  unfolding insert
  Placed-insert heap next ref id [] l h p = (l, h, tt)
  Placed-insert heap next ref id ((j, r) ∷ m) l h p = elim (Bool-cases (str_eq j id)) [
    | inl same ↦ rw same (l, h, p.2)
    | inr other ↦ rw other (p.0, p.1, Placed-insert heap next ref id m l h p.2)
  ]

  Placed-delete :
      (heap : ℕ → Client f) (next : ℕ) (id : GoString) (m : Table GoString ℕ)
      → Placed heap next m
      → Placed heap next (delete id m)
  unfolding delete
  Placed-delete heap next id [] p = tt
  Placed-delete heap next id ((j, r) ∷ m) p = elim (Bool-cases (str_eq j id)) [
    | inl same ↦ rw same (Placed-delete heap next id m p.2)
    | inr other ↦ rw other (p.0, p.1, Placed-delete heap next id m p.2)
  ]

  pub lookup-Placed :
      (heap : ℕ → Client f) (next ref : ℕ) (id : GoString) (m : Table GoString ℕ)
      → Placed heap next m
      → lookup id m ≡ some ref
      → (ref < next) × ((heap ref).id ≡ id)
  unfolding lookup
  lookup-Placed heap next ref id [] p h = cc
  lookup-Placed heap next ref id ((j, r) ∷ m) p h =
      ground (arith, str_eq_iff j id, lookup-Placed heap next ref id m p.2)

  pub through-Inv : (ref : ℕ) (g : Setter) (s : Session f) → Inv s → Inv (through f ref (apply g) s)
  unfolding through
  through-Inv ref g s v = record {
    unique = v.unique;
    placed =
        Placed-write s.heap s.next_ref ref _ s.clients (sym (apply-id g (s.heap ref))) v.placed;
  }

  pub remove_client-Inv : (id : GoString) (s : Session f) → Inv s → Inv (remove_client f id s).0
  unfolding remove_client
  remove_client-Inv id s v = elim (Option-cases (lookup id s.clients)) [
    | inl e ↦ rw (e, remove_client) v
    | inr (ref, e) ↦
        rw (e, remove_client)
          (record {
            unique = delete-Unique id s.clients v.unique;
            placed = Placed-delete s.heap s.next_ref id s.clients v.placed;
          })
  ]

  -- AddClient on every branch, for a session that meets the invariant: a wrong token, or a failure of
  -- the random source, is an error and changes nothing. Else the new client gets a pointer that no
  -- entry had, is found under its identifier with the fields it was given, is announced if there is a
  -- callback, and the entries of other identifiers stay.
  pub add_client_lem :
      (token name platform other : GoString) (conn t u : ℕ) (random : Option (List ℕ))
      (s : Session f)
      → Inv s
      → ((token ≢ s.token)
          × (add_client f token name platform conn t u random s ≡ (s, err invalid_token, [])))
        ⊎ ((token ≡ s.token)
            × (generate_client_id random ≡ none)
            × (add_client f token name platform conn t u random s ≡ (s, err no_randomness, [])))
        ⊎ ((id : GoString) × (s' : Session f) × (token ≡ s.token)
            × (generate_client_id random ≡ some id)
            × (add_client f token name platform conn t u random s
                ≡ (s', ok s.next_ref, if s.has_on_join then joined s.next_ref ∷ [] else []))
            × (lookup id s'.clients ≡ some s.next_ref)
            × (s'.heap s.next_ref ≡ new_client f id name platform conn t u)
            × ((id ≡ other) ⊎ (lookup other s'.clients ≡ lookup other s.clients))
            × Inv s')
  unfolding add_client
  add_client_lem token name platform other conn t u random s v =
      elim (Bool-cases (str_eq token s.token)) [
        | inr wrong ↦
            inl ((λ e. cc ((str_eq_iff token s.token).1 e, wrong)), rw (add_client, wrong))
        | inl right ↦ elim (Option-cases (generate_client_id random)) [
          | inl e ↦ inr (inl ((str_eq_iff token s.token).0 right, e, rw (add_client, right, e)))
          | inr (id, e) ↦ inr (
              inr (
                id,
                added id,
                (str_eq_iff token s.token).0 right,
                e,
                rw (add_client, right, e),
                lookup-insert_self id s.next_ref s.clients,
                unfold write_heap in ground arith,
                elim (Bool-cases (str_eq id other)) [
                  | inl same ↦ inl ((str_eq_iff id other).0 same)
                  | inr differ ↦ inr (
                      lookup-insert_ne id other s.next_ref s.clients
                        (λ p. cc ((str_eq_iff id other).1 p, differ)))
                ],
                record {
                  unique = insert-Unique id s.next_ref s.clients v.unique;
                  placed =
                      Placed-insert (added id).heap (suc s.next_ref) s.next_ref id s.clients
                        (omega arith) (unfold write_heap in ground (arith, fresh_id id))
                        (Placed-new s.heap s.next_ref (fresh id) s.clients v.placed);
                },
              ))
        ]
      ]
    where
      fresh : GoString → Client f
      fresh id = new_client f id name platform conn t u

      fresh_id : (id : GoString) → (fresh id).id ≡ id
      fresh_id id = unfold new_client in refl

      added : GoString → Session f
      added id = record s {
        clients = insert id s.next_ref s.clients;
        heap = write_heap f s.next_ref (fresh id) s.heap;
        next_ref = suc s.next_ref;
      }

  -- RemoveClient on any session: afterwards the identifier is not found, the entries of all others and
  -- the clients in the heap are as before, and a second removal changes nothing and closes nothing. The
  -- connection of a client that was there is closed.
  pub remove_client_lem :
      (id other : GoString) (s : Session f)
      → id ≢ other
      → (lookup id (remove_client f id s).0.clients ≡ none)
        × (lookup other (remove_client f id s).0.clients ≡ lookup other s.clients)
        × ((remove_client f id s).0.heap ≡ s.heap)
        × (remove_client f id (remove_client f id s).0 ≡ ((remove_client f id s).0, []))
        × (((lookup id s.clients ≡ none) × ((remove_client f id s).1 ≡ []))
            ⊎ ((ref : ℕ) × (lookup id s.clients ≡ some ref)
                × ((remove_client f id s).1
                    ≡ close_conn f (s.heap ref).tcp_conn
                      ++ (if s.has_on_leave then left id ∷ [] else []))))
  remove_client_lem id other s ne = elim (Option-cases (lookup id s.clients)) [
    | inl e ↦
        let same : remove_client f id s ≡ (s, []) = unfold remove_client in rw (e, remove_client) in
        rw same (e, refl, refl, same, inl (e, refl))
    | inr (ref, e) ↦
        let events : List Event =
          close_conn f (s.heap ref).tcp_conn ++ (if s.has_on_leave then left id ∷ [] else []) in
        let s' : Session f = record s { clients = delete id s.clients } in
        let gone : lookup id s'.clients ≡ none = lookup-delete_self id s.clients in
        let first : remove_client f id s ≡ (s', events) =
          unfold remove_client in rw (e, remove_client) in
        let again : remove_client f id s' ≡ (s', []) =
          unfold remove_client in rw (gone, remove_client) in
        rw first (gone, lookup-delete_ne id other s.clients ne, refl, again, inr (ref, e, refl))
  ]
