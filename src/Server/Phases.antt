-- ===== src/Server/Phases.antt =====
-- internal/server: the phase of a connection and the clients that a removal leaves.
use soundswamp.Prelude.{ℕ, ◌<◌, ◌≡◌, ◌≢◌, refl, ap, ◌⊎◌, inl, inr, some, arith}
use soundswamp.Prelude.Table.{GoString, lookup, string_eq, str_eq_iff}
use soundswamp.Prelude.Float.{Float}
use soundswamp.Session.Registry
use soundswamp.Session.Registry.{Session, add_client, write_heap}
use soundswamp.Session.Evict.{remove_client-lookup, remove_client-heap, remove_client-next}
use soundswamp.Server.System.{Phase, waiting, reading, closed, stranded, set_phase}
use soundswamp.Server.Owners.{Bearer, Bearer-moves}

pub set_phase_self : (ref : ℕ) (p : Phase) (phase : ℕ → Phase) → set_phase ref p phase ref ≡ p
unfolding set_phase
set_phase_self ref p phase = ground arith

pub set_phase_ne :
    (ref r : ℕ) (p : Phase) (phase : ℕ → Phase) → r ≢ ref → set_phase ref p phase r ≡ phase r
unfolding set_phase
set_phase_ne ref r p phase h = ground arith

pub closed-cases : (p : Phase) → (p ≡ closed) ⊎ (p ≢ closed)
closed-cases closed = inl refl
closed-cases waiting = inr (λ h. cc)
closed-cases reading = inr (λ h. cc)
closed-cases stranded = inr (λ h. cc)

module _ (f : Float) where
  pub removed-Other :
      (id j : GoString) (ref : ℕ) (s : Session f)
      → lookup j (Registry.remove_client f id s).0.clients ≡ some ref
      → (j ≢ id) × (lookup j s.clients ≡ some ref)
  removed-Other id j ref s h = ground (arith, remove_client-lookup f id j s, h, str_eq_iff id j)

  -- Who bears an identifier after RemoveClient is who bore it before.
  pub removed-Bearer :
      (gone : GoString) (s : Session f) (phase phase' : ℕ → Phase) (P Q : Phase → Type 0)
      (id : GoString)
      → ((r : ℕ) → r < s.next_ref → (s.heap r).id ≡ id → P (phase r) → Q (phase' r))
      → Bearer f s phase P id
      → Bearer f (Registry.remove_client f gone s).0 phase' Q id
  removed-Bearer gone s phase phase' P Q id turn b =
      Bearer-moves f s (Registry.remove_client f gone s).0 phase phase' P Q id
        (λ r below. ap (λ h. (h r).id) (remove_client-heap f gone s))
        (omega (arith, remove_client-next f gone s)) turn b
