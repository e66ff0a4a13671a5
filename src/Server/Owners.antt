-- ===== src/Server/Owners.antt =====
-- internal/server: which connection each entry of the four components belongs to.
use soundswamp.Prelude.{ℕ, ◌≤◌, ◌<◌, ◌≡◌, ◌≢◌, ◌∙◌, ◌⊎◌, inl, inr, true, some, arith}
use soundswamp.Prelude.Table.{GoString, lookup, string_eq, KeysOf}
use soundswamp.Prelude.Float.{Float}
use soundswamp.Session.Registry.{Session}
use soundswamp.Session.Invariant
use soundswamp.Clock.{ClientClock}
use soundswamp.Latency.{JitterReport}
use soundswamp.Stream.{ClientStream}
use soundswamp.Server.{Server}
use soundswamp.Server.System.{System, Phase, waiting, reading, closed, stranded}

abbrev pub IsReading : Phase → Type 0
IsReading p = p ≡ reading

abbrev pub IsOpen : Phase → Type 0
IsOpen p = (p ≡ waiting) ⊎ (p ≡ reading)

abbrev pub IsClocked : Phase → Type 0
IsClocked p = (p ≡ reading) ⊎ (p ≡ stranded)

module _ (f : Float) where
  -- A connection whose client bears the identifier and whose phase has the property.
  abbrev pub Bearer : Session f → (ℕ → Phase) → (Phase → Type 0) → GoString → Type 0
  Bearer session phase P id =
      (ref : ℕ) × (ref < session.next_ref) × ((session.heap ref).id ≡ id) × P (phase ref)

  -- The session's entries belong to connections that are open, streams and jitter reports to ones in
  -- their read loop, and clocks to ones in their read loop or stranded.
  pub record Inv (s : System f) : Type 0 where
    pub session : Invariant.Inv f s.server.session
    pub frame_setter : s.server.latency.has_frame_setter ≡ true
    pub born : (r : ℕ) → s.phase r ≢ closed → r < s.server.session.next_ref
    pub in_session :
        (id : GoString) (ref : ℕ)
        → lookup id s.server.session.clients ≡ some ref
        → IsOpen (s.phase ref)
    pub in_stream :
        (id : GoString) (c : ClientStream)
        → lookup id s.server.stream.clients ≡ some c
        → Bearer s.server.session s.phase IsReading id
    pub in_clock :
        (id : GoString) (c : ClientClock)
        → lookup id s.server.clock ≡ some c
        → Bearer s.server.session s.phase IsClocked id
    pub in_latency :
        (id : GoString) (r : JitterReport f)
        → lookup id s.server.latency.reports ≡ some r
        → Bearer s.server.session s.phase IsReading id

  pub Bearer-moves :
      (session session' : Session f) (phase phase' : ℕ → Phase) (P Q : Phase → Type 0)
      (id : GoString)
      → ((r : ℕ) → r < session.next_ref → (session'.heap r).id ≡ (session.heap r).id)
      → session.next_ref ≤ session'.next_ref
      → ((r : ℕ) → r < session.next_ref → (session.heap r).id ≡ id → P (phase r) → Q (phase' r))
      → Bearer session phase P id
      → Bearer session' phase' Q id
  Bearer-moves session session' phase phase' P Q id same grows turn (r, below, bears, p) =
      (r, omega arith, same r below ∙ bears, turn r below bears p)

  -- A step within one phase of every connection: no entry of the session is added, a stream or a clock
  -- only where one was, and a jitter report besides only for `New`.
  pub record Effect (New : GoString → Type 0) (s t : Server f) : Type 0 where
    pub session : Invariant.Inv f t.session
    pub frame_setter : t.latency.has_frame_setter ≡ s.latency.has_frame_setter
    pub next : t.session.next_ref ≡ s.session.next_ref
    pub ids : (r : ℕ) → (t.session.heap r).id ≡ (s.session.heap r).id
    pub clients :
        (id : GoString) (ref : ℕ)
        → lookup id t.session.clients ≡ some ref
        → lookup id s.session.clients ≡ some ref
    pub streams : KeysOf t.stream.clients s.stream.clients
    pub clocks : KeysOf t.clock s.clock
    pub reports :
        (id : GoString) (r : JitterReport f)
        → lookup id t.latency.reports ≡ some r
        → New id ⊎ ((r' : JitterReport f) × (lookup id s.latency.reports ≡ some r'))

  pub Effect-Inv :
      (New : GoString → Type 0) (s : System f) (t : Server f)
      → Inv s
      → Effect New s.server t
      → ((id : GoString) → New id → Bearer s.server.session s.phase IsReading id)
      → Inv (record { server = t; phase = s.phase })
  Effect-Inv New s t v x new = record {
    session = x.session;
    frame_setter = x.frame_setter ∙ v.frame_setter;
    born = λ r h. omega (arith, v.born r h, x.next);
    in_session = λ id ref h. v.in_session id ref (x.clients id ref h);
    in_stream = λ id c h. stays IsReading id (v.in_stream id _ (x.streams id c h).1);
    in_clock = λ id c h. stays IsClocked id (v.in_clock id _ (x.clocks id c h).1);
    in_latency = λ id r h. elim (x.reports id r h) [
      | inl fresh ↦ stays IsReading id (new id fresh)
      | inr (r', known) ↦ stays IsReading id (v.in_latency id r' known)
    ];
  }
    where
      stays :
          (P : Phase → Type 0) (id : GoString)
          → Bearer s.server.session s.phase P id
          → Bearer t.session s.phase P id
      stays P id =
          Bearer-moves s.server.session t.session s.phase s.phase P P id (λ r h. x.ids r)
            (omega (arith, x.next)) (λ r below h p. p)
