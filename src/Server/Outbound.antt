-- ===== src/Server/Outbound.antt =====
-- internal/server/tcp.go: whom BroadcastToAll writes to.
use soundswamp.Prelude.{
  ℕ, ◌+◌, ◌≡◌, ◌≢◌, refl, sym, ap, ◌∙◌, inl, inr, false, Option, none, some, List, [], ◌∷◌, ◌==◌,
  ==_iff, if◌then◌else◌, arith, Bool-cases, Option-cases,
}
use soundswamp.Prelude.Table.{
  GoString, Table, lookup, string_eq, str_eq, str_eq_iff, beq_ne, beq_self, Unique, nat_eq,
}
use soundswamp.Prelude.Float.{Float}
use soundswamp.Session.{Client, send}
use soundswamp.Session.Invariant.{Placed, lookup-Placed}
use soundswamp.Server.{for_each_client, broadcast_to_all}
use soundswamp.Server.System.{System, Reach}
use soundswamp.Server.Quiet.{Reach-Inv}

-- How often a client is written to.
abbrev pub writes_to : ℕ → List (ℕ × ℕ) → ℕ
writes_to r [] = 0
writes_to r ((ref, conn) ∷ out) = (if ref == r then 1 else 0) + writes_to r out

-- Once, if there is a connection to write to.
abbrev pub once : Option ℕ → ℕ
once none = 0
once (some conn) = 1

-- What the client at `r` is to get: a message, if the map holds it and it has a connection.
abbrev pub due : ℕ → Option ℕ → Option ℕ → ℕ
due r none conn = 0
due r (some ref) conn = if ref == r then once conn else 0

module _ (f : Float) where
  for_each_client-head :
      (heap : ℕ → Client f) (id : GoString) (ref r : ℕ) (m : Table GoString ℕ)
      → writes_to r (for_each_client f heap ((id, ref) ∷ m))
        ≡ (if ref == r then once (heap ref).write_func else 0)
          + writes_to r (for_each_client f heap m)
  unfolding for_each_client send
  for_each_client-head heap id ref r m = elim (Option-cases (heap ref).write_func) [
    | inl e ↦ rw (e, for_each_client) (ground arith)
    | inr (conn, e) ↦ rw (e, for_each_client) refl
  ]

  -- A client that the map does not hold is not written to.
  absent :
      (heap : ℕ → Client f) (next r : ℕ) (m : Table GoString ℕ)
      → Placed f heap next m
      → lookup (heap r).id m ≢ some r
      → Unique m
      → writes_to r (for_each_client f heap m) ≡ 0
  unfolding lookup
  absent heap next r [] p h u = unfold for_each_client in refl
  absent heap next r ((id, ref) ∷ m) p h u = elim (Bool-cases (ref == r)) [
    | inl same ↦ absurd (h (held ((==_iff ref r).0 same)))
    | inr other ↦
        for_each_client-head heap id ref r m
        ∙ rw other (omega (arith, absent heap next r m p.2 (λ e. h (later e)) u.1))
  ]
    where
      held : ref ≡ r → lookup (heap r).id ((id, ref) ∷ m) ≡ some r
      held e =
          let at_r : (heap r).id ≡ id = ap (λ k. (heap k).id) (sym e) ∙ p.1 in
          rw (at_r, beq_self id) (ap some e)

      later : lookup (heap r).id m ≡ some r → lookup (heap r).id ((id, ref) ∷ m) ≡ some r
      later e = elim (Bool-cases (str_eq id (heap r).id)) [
        | inl same ↦ cc (rw ((str_eq_iff id (heap r).id).0 same) at u.0, e)
        | inr other ↦ rw other e
      ]

  -- A client that the map holds is written to once, if it has a connection.
  present :
      (heap : ℕ → Client f) (next r : ℕ) (id : GoString) (m : Table GoString ℕ)
      → Placed f heap next m
      → lookup id m ≡ some r
      → Unique m
      → writes_to r (for_each_client f heap m) ≡ once (heap r).write_func
  unfolding lookup
  present heap next r id [] p h u = cc
  present heap next r id ((j, ref) ∷ m) p h u = elim (Bool-cases (str_eq j id)) [
    | inl same ↦
        let e : some ref ≡ some r = rw same at h in
        let at_r : ref ≡ r = cc e in
        let bears : (heap r).id ≡ j = ap (λ k. (heap k).id) (sym at_r) ∙ p.1 in
        let rest = absent heap next r m p.2 (λ found. cc (rw bears at found, u.0)) u.1 in
        for_each_client-head heap j ref r m ∙ rw (at_r, (==_iff r r).1 refl) (omega (arith, rest))
    | inr other ↦
        let found : lookup id m ≡ some r = rw other at h in
        let bears = (lookup-Placed f heap next r id m p.2 found).1 in
        let apart : ref == r ≡ false =
          beq_ne ref r (λ e. cc (beq_self j, sym p.1 ∙ ap (λ k. (heap k).id) e ∙ bears, other)) in
        for_each_client-head heap j ref r m
        ∙ rw apart (omega (arith, present heap next r id m p.2 found u.1))
  ]

  -- In a reachable state a broadcast is written once to every client of the session whose read loop has
  -- attached a connection, and to no client without one or outside of the session.
  pub broadcast_reaches :
      (s : System f) (r : ℕ)
      → Reach f s
      → let sess = s.server.session in
        writes_to r (broadcast_to_all f s.server)
        ≡ due r (lookup (sess.heap r).id sess.clients) (sess.heap r).write_func
  unfolding broadcast_to_all
  broadcast_reaches s r reach =
      let v = (Reach-Inv f s reach).session in
      let sess = s.server.session in
      let out = absent sess.heap sess.next_ref r sess.clients v.placed in
      elim (Option-cases (lookup (sess.heap r).id sess.clients)) [
        | inl e ↦ rw e (out (λ h. cc (h, e)) v.unique)
        | inr (ref, e) ↦ elim (Bool-cases (ref == r)) [
          | inl same ↦
              let here : lookup (sess.heap r).id sess.clients ≡ some r =
                e ∙ ap some ((==_iff ref r).0 same) in
              rw (e, same)
                (present sess.heap sess.next_ref r (sess.heap r).id sess.clients v.placed here
                  v.unique)
          | inr other ↦
              let same : some ref ≡ some r → ref ≡ r = λ h. cc h in
              rw (e, other) (out (λ h. cc ((==_iff ref r).1 (same (sym e ∙ h)), other)) v.unique)
        ]
      ]
