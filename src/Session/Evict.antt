-- ===== src/Session/Evict.antt =====
-- internal/session/manager.go: EvictStaleClients, and sessions over any history of calls.
use mathlib.Core.Path.{subst}
use soundswamp.Prelude.{
  ℕ, ◌-◌, ◌≤◌, ◌<◌, ◌≡◌, refl, sym, ap, ◌∙◌, ◌⊎◌, inl, inr, Bool, true, false, Option, none, some,
  List, [], ◌∷◌, if◌then◌else◌, arith, Bool-cases, Option-cases, ltb→lt, ltb_not→le,
}
use soundswamp.Prelude.Table.{
  GoString, Table, lookup, string_eq, str_eq, str_eq_iff, Unique, lookup-delete,
}
use soundswamp.Prelude.Float.{Float}
use soundswamp.Session.{Client, is_stale, heartbeat_timeout, update_heartbeat}
use soundswamp.Session.Registry.{
  Session, Result, through, write_heap, new_session, add_client, remove_client, stale_ids,
  remove_all, evict_stale_clients,
}
use soundswamp.Session.Invariant.{
  Inv, Setter, apply, through-Inv, remove_client-Inv, add_client_lem,
}

abbrev pub member : GoString → List GoString → Bool
member id [] = false
member id (x ∷ xs) = if str_eq x id then true else member id xs

module _ (f : Float) where
  pub remove_client-lookup :
      (id other : GoString) (s : Session f)
      → lookup other (remove_client f id s).0.clients
        ≡ (if str_eq id other then none else lookup other s.clients)
  remove_client-lookup id other s = elim (Option-cases (lookup id s.clients)) [
    | inl e ↦ unfold remove_client in rw (e, remove_client) (absent e)
    | inr (ref, e) ↦
        unfold remove_client in rw (e, remove_client) (lookup-delete id other s.clients)
  ]
    where
      absent :
          lookup id s.clients ≡ none
          → lookup other s.clients ≡ (if str_eq id other then none else lookup other s.clients)
      absent e = ground (arith, str_eq_iff id other, e)

  pub remove_client-heap : (id : GoString) (s : Session f) → (remove_client f id s).0.heap ≡ s.heap
  unfolding remove_client
  remove_client-heap id s = ground arith

  remove_all-lookup :
      (ids : List GoString) (other : GoString) (s : Session f)
      → lookup other (remove_all f ids s).0.clients
        ≡ (if member other ids then none else lookup other s.clients)
  unfolding remove_all
  remove_all-lookup [] other s = refl
  remove_all-lookup (id ∷ ids) other s =
      ground (
        arith,
        remove_all-lookup ids other (remove_client f id s).0,
        remove_client-lookup id other s,
      )

  pub remove_client-next :
      (id : GoString) (s : Session f) → (remove_client f id s).0.next_ref ≡ s.next_ref
  unfolding remove_client
  remove_client-next id s = ground arith

  remove_all-next :
      (ids : List GoString) (s : Session f) → (remove_all f ids s).0.next_ref ≡ s.next_ref
  unfolding remove_all
  remove_all-next [] s = refl
  remove_all-next (id ∷ ids) s =
      remove_all-next ids (remove_client f id s).0 ∙ remove_client-next id s

  pub evict-next : (now : ℕ) (s : Session f) → (evict_stale_clients f now s).0.next_ref ≡ s.next_ref
  unfolding evict_stale_clients
  evict-next now s = remove_all-next (stale_ids f now s.heap s.clients) s

  remove_all-heap : (ids : List GoString) (s : Session f) → (remove_all f ids s).0.heap ≡ s.heap
  unfolding remove_all
  remove_all-heap [] s = refl
  remove_all-heap (id ∷ ids) s =
      remove_all-heap ids (remove_client f id s).0 ∙ remove_client-heap id s

  remove_all-Inv : (ids : List GoString) (s : Session f) → Inv f s → Inv f (remove_all f ids s).0
  unfolding remove_all
  remove_all-Inv [] s v = v
  remove_all-Inv (id ∷ ids) s v =
      remove_all-Inv ids (remove_client f id s).0 (remove_client-Inv f id s v)

  -- Whether the scan takes an identifier is decided by the entry that the map has for it.
  stale_at : ℕ → (ℕ → Client f) → Option ℕ → Bool
  stale_at now heap none = false
  stale_at now heap (some ref) = is_stale f now (heap ref)

  member-stale_ids :
      (now : ℕ) (heap : ℕ → Client f) (m : Table GoString ℕ) (id : GoString)
      → Unique m
      → member id (stale_ids f now heap m) ≡ stale_at now heap (lookup id m)
  unfolding stale_ids stale_at lookup
  member-stale_ids now heap [] id u = refl
  member-stale_ids now heap ((j, ref) ∷ m) id u =
      ground (arith, str_eq_iff j id, member-stale_ids now heap m id u.1)

  -- EvictStaleClients removes exactly the clients with no heartbeat for more than ten seconds and
  -- returns their identifiers: an identifier that was not found is still not found and not returned; a
  -- stale client's is returned and no longer found; another client's stays, with the same pointer, and
  -- is not returned. The clients in the heap do not change, and the invariant is kept.
  pub evict_exact :
      (now : ℕ) (id : GoString) (s : Session f)
      → Inv f s
      → Inv f (evict_stale_clients f now s).0
        × ((evict_stale_clients f now s).0.heap ≡ s.heap)
        × (((lookup id s.clients ≡ none)
              × (lookup id (evict_stale_clients f now s).0.clients ≡ none)
              × (member id (evict_stale_clients f now s).1 ≡ false))
            ⊎ ((ref : ℕ) × (lookup id s.clients ≡ some ref)
                × (heartbeat_timeout < now - (s.heap ref).last_heartbeat)
                × (lookup id (evict_stale_clients f now s).0.clients ≡ none)
                × (member id (evict_stale_clients f now s).1 ≡ true))
            ⊎ ((ref : ℕ) × (lookup id s.clients ≡ some ref)
                × (now - (s.heap ref).last_heartbeat ≤ heartbeat_timeout)
                × (lookup id (evict_stale_clients f now s).0.clients ≡ some ref)
                × (member id (evict_stale_clients f now s).1 ≡ false)))
  unfolding evict_stale_clients stale_at
  evict_exact now id s v =
      (remove_all-Inv stale s v, remove_all-heap stale s, cases (lookup id s.clients) refl)
    where
      stale : List GoString
      stale = stale_ids f now s.heap s.clients

      After : Type 0
      After =
          ((lookup id s.clients ≡ none)
            × (lookup id (remove_all f stale s).0.clients ≡ none)
            × (member id stale ≡ false))
          ⊎ ((ref : ℕ) × (lookup id s.clients ≡ some ref)
              × (heartbeat_timeout < now - (s.heap ref).last_heartbeat)
              × (lookup id (remove_all f stale s).0.clients ≡ none)
              × (member id stale ≡ true))
          ⊎ ((ref : ℕ) × (lookup id s.clients ≡ some ref)
              × (now - (s.heap ref).last_heartbeat ≤ heartbeat_timeout)
              × (lookup id (remove_all f stale s).0.clients ≡ some ref)
              × (member id stale ≡ false))

      taken : (o : Option ℕ) → lookup id s.clients ≡ o → member id stale ≡ stale_at now s.heap o
      taken o e = member-stale_ids now s.heap s.clients id v.unique ∙ ap (stale_at now s.heap) e

      cases : (o : Option ℕ) → lookup id s.clients ≡ o → After
      cases none e =
          let kept : member id stale ≡ false = taken none e in
          inl (e, remove_all-lookup stale id s ∙ rw (kept, e), kept)
      cases (some ref) e = elim (Bool-cases (is_stale f now (s.heap ref))) [
        | inl old ↦
            let hit : member id stale ≡ true = taken (some ref) e ∙ old in
            inr (
              inl (
                ref,
                e,
                unfold is_stale in ltb→lt _ _ old,
                remove_all-lookup stale id s ∙ rw hit,
                hit,
              ))
        | inr fresh ↦
            let miss : member id stale ≡ false = taken (some ref) e ∙ fresh in
            inr (
              inr (
                ref,
                e,
                unfold is_stale in ltb_not→le _ _ fresh,
                remove_all-lookup stale id s ∙ rw (miss, e),
                miss,
              ))
      ]

  -- The calls that change a session.
  pub data Call : Type 0 where
    adds : GoString → GoString → GoString → ℕ → ℕ → ℕ → Option (List ℕ) → Call
    removes : GoString → Call
    sets : ℕ → Setter f → Call
    evicts : ℕ → Call

  unfoldable pub step : Call → Session f → Session f
  step (adds token name platform conn t u random) s =
      (add_client f token name platform conn t u random s).0
  step (removes id) s = (remove_client f id s).0
  step (sets ref g) s = through f ref (apply f g) s
  step (evicts now) s = (evict_stale_clients f now s).0

  unfoldable pub run : List Call → Session f → Session f
  run [] s = s
  run (c ∷ cs) s = run cs (step c s)

  step-Inv : (c : Call) (s : Session f) → Inv f s → Inv f (step c s)
  unfolding step
  step-Inv (adds token name platform conn t u random) s v =
      elim (add_client_lem f token name platform [] conn t u random s v) [
        | inl (_, e) ↦ subst (Inv f) (sym (ap (λ r. r.0) e)) v
        | inr (inl (_, _, e)) ↦ subst (Inv f) (sym (ap (λ r. r.0) e)) v
        | inr (inr (id, s', _, _, e, _, _, _, v')) ↦ subst (Inv f) (sym (ap (λ r. r.0) e)) v'
      ]
  step-Inv (removes id) s v = remove_client-Inv f id s v
  step-Inv (sets ref g) s v = through-Inv f ref g s v
  step-Inv (evicts now) s v = (evict_exact now [] s v).0

  run-Inv : (cs : List Call) (s : Session f) → Inv f s → Inv f (run cs s)
  unfolding run
  run-Inv [] s v = v
  run-Inv (c ∷ cs) s v = run-Inv cs (step c s) (step-Inv c s v)

  -- In every session that NewSession makes, after any history of joins, removals, evictions and writes
  -- through client pointers, stale pointers included: each identifier stands at most once in the map,
  -- and its pointer is to an existing client that bears that identifier.
  pub run_session-Inv :
      (random_id random_token : Option (List ℕ)) (now : ℕ) (heap : ℕ → Client f) (s : Session f)
      (cs : List Call)
      → new_session f random_id random_token now heap ≡ Result.ok s
      → Inv f (run cs s)
  unfolding new_session
  run_session-Inv random_id random_token now heap s cs e =
      run-Inv cs s (record { unique = ground arith; placed = ground arith })

  -- A heartbeat keeps its client: one that is in the map and whose heartbeat came in through its pointer
  -- at `t` is still found, with that pointer, after an eviction at most ten seconds later.
  pub heartbeat_keeps :
      (id : GoString) (ref t now : ℕ) (s : Session f)
      → Inv f s
      → lookup id s.clients ≡ some ref
      → now - t ≤ heartbeat_timeout
      → lookup id
          (evict_stale_clients f now (through f ref (apply f (Setter.heartbeat t)) s)).0.clients
        ≡ some ref
  heartbeat_keeps id ref t now s v e h = kept
    where
      beaten : Session f
      beaten = through f ref (apply f (Setter.heartbeat t)) s

      known : lookup id beaten.clients ≡ some ref
      known = unfold through in e

      beat : (beaten.heap ref).last_heartbeat ≡ t
      beat = unfold through write_heap apply update_heartbeat in ground arith

      kept : lookup id (evict_stale_clients f now beaten).0.clients ≡ some ref
      kept = elim (evict_exact now id beaten (through-Inv f ref (Setter.heartbeat t) s v)).2 [
        | inl (gone, _, _) ↦ cc (gone, known)
        | inr (inl (r, found, old, _, _)) ↦ absurd (ground (arith, found, known, old, beat, h))
        | inr (inr (r, found, _, after, _)) ↦ ground (arith, found, known, after)
      ]
