-- ===== src/Tests/Session.antt =====
-- internal/session/manager.go: a session with one client.
use soundswamp.Prelude.{
  ℕ, ◌-◌, ◌≤◌, ◌<◌, ◌≡◌, refl, ◌⊎◌, true, false, none, some, List, [], ◌∷◌, arith,
}
use soundswamp.Prelude.Table.{GoString, lookup, string_eq}
use soundswamp.Prelude.Text.{codes}
use soundswamp.Prelude.Float.{Float, tenths}
use soundswamp.Session.{Client, new_client, heartbeat_timeout}
use soundswamp.Session.Ids
use soundswamp.Session.Ids.{
  session_id_length, generate_session_id, generate_client_id, generate_token, Clear,
  generate_session_id_shape, ids-injective,
}
use soundswamp.Session.Registry.{Session, new_session, evict_stale_clients}
use soundswamp.Session.Invariant.{Inv}
use soundswamp.Session.Evict.{Call, adds, evicts, run, member, evict_exact, run_session-Inv}

abbrev random_six : List ℕ
random_six = 0 ∷ 31 ∷ 32 ∷ 255 ∷ 100 ∷ 7 ∷ []

abbrev nobody : ℕ → Client tenths
nobody r = new_client tenths [] [] [] 0 0 0

-- One client, whose last heartbeat was at 0.
abbrev one_client : Session tenths
one_client = record {
  id = codes "S";
  token = codes "t";
  created_at = 0;
  clients = (codes "a", 0) ∷ [];
  heap = λ r. new_client tenths (codes "a") (codes "n") (codes "p") 5 0 0;
  next_ref = 1;
  has_on_join = true;
  has_on_leave = true;
}

one_client-Inv : Inv tenths one_client
unfolding lookup new_client
one_client-Inv = record { unique = (refl, tt); placed = (omega arith, refl, tt) }

abbrev fresh_session : Session tenths
fresh_session = record {
  id = codes "A9A9EH";
  token = codes "07";
  created_at = 3;
  clients = [];
  heap = nobody;
  next_ref = 0;
  has_on_join = false;
  has_on_leave = false;
}

run_session-Inv_example :
    let f : Float = tenths in
    let s : Session f = fresh_session in
    let cs : List (Call tenths) = adds (codes "07") [] [] 1 4 4 (some (1 ∷ [])) ∷ evicts 5 ∷ [] in
    Inv f (run f cs s)
unfolding new_session generate_session_id generate_token Ids.session_char Ids.hex
run_session-Inv_example =
    run_session-Inv tenths (some random_six) (some (7 ∷ [])) 3 nobody fresh_session
      (adds (codes "07") [] [] 1 4 4 (some (1 ∷ [])) ∷ evicts 5 ∷ []) refl

evict_exact_example :
    let f : Float = tenths in
    let now : ℕ = 11000000000 in
    let id : GoString = codes "a" in
    let s : Session f = one_client in
    Inv f (evict_stale_clients f now s).0
    × ((evict_stale_clients f now s).0.heap ≡ s.heap)
    × (((lookup id s.clients ≡ none)
          × (lookup id (evict_stale_clients f now s).0.clients ≡ none)
          × (member id (evict_stale_clients f now s).1 ≡ false))
        ⊎ ((ref : ℕ) × (lookup id s.clients ≡ some ref)
            × (heartbeat_timeout < now - (s.heap ref).last_heartbeat)
            × (lookup id (evict_stale_clients f now s).0.clients ≡ none)
            × (member id (evict_stale_clients f now s).1 ≡ true))
        ⊎ ((ref : ℕ) × (lookup id s.clients ≡ some ref)
            × (now - (s.heap ref).last_heartbeat ≤ heartbeat_timeout)
            × (lookup id (evict_stale_clients f now s).0.clients ≡ some ref)
            × (member id (evict_stale_clients f now s).1 ≡ false)))
evict_exact_example = evict_exact tenths 11000000000 (codes "a") one_client one_client-Inv
