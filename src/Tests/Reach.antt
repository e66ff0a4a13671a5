-- ===== src/Tests/Reach.antt =====
-- internal/server: a connection that joins, is synchronised, reports its jitter and leaves.
use soundswamp.Prelude.{ℕ, ◌≡◌, refl, true, false, some, List, [], ◌∷◌, arith}
use soundswamp.Prelude.Int.{pos}
use soundswamp.Prelude.Table.{lookup, string_eq, str_eq}
use soundswamp.Prelude.Text.{codes}
use soundswamp.Prelude.Float.{Float, tenths}
use soundswamp.Session.{new_client}
use soundswamp.Session.Ids.{
  generate_session_id, generate_token, generate_client_id, session_char, hex,
}
use soundswamp.Session.Registry.{Session, new_session, add_client}
use soundswamp.Clock.{Round, probe_round, probe_rounds, initial_handshake, settle}
use soundswamp.Server.{
  Server, admit, synchronise, attach, broadcast_to_all, disconnect, Message, jitter_report,
  handle_message,
}
use soundswamp.Server.Outbound.{writes_to, due, broadcast_reaches}
use soundswamp.Prelude.Table.{lookup}
use soundswamp.Server.System.{
  System, waiting, reading, closed, set_phase, start_system, Reach, start, later, join, synced,
  attached, leave,
}
use soundswamp.Server.Owners.{Inv}
use soundswamp.Server.Quiet.{quiet_server_empty, Reach-Inv, Reach-handles}

abbrev opened : Session tenths
opened = record {
  id = codes "B";
  token = codes "61";
  created_at = 0;
  clients = [];
  heap = λ r. new_client tenths [] [] [] 0 0 0;
  next_ref = 0;
  has_on_join = false;
  has_on_leave = false;
}

abbrev began : System tenths
began = start_system tenths opened

began-Reach : Reach tenths began
unfolding new_session generate_session_id generate_token session_char hex
began-Reach =
    start (some (1 ∷ [])) (some (97 ∷ [])) 0 (λ r. new_client tenths [] [] [] 0 0 0) opened refl

abbrev let_in : Server tenths
let_in =
    (admit tenths (codes "61") (codes "n") (codes "p") 5 1 1 (some (7 ∷ [])) true began.server).0

abbrev arrived : System tenths
arrived = record { server = let_in; phase = set_phase 0 waiting began.phase }

arrived-Reach : Reach tenths arrived
unfolding admit add_client generate_client_id hex str_eq
arrived-Reach =
    later began-Reach (join (codes "61") (codes "n") (codes "p") 5 1 1 (some (7 ∷ [])) 0 refl)

abbrev rounds_met : List Round
rounds_met =
    record {
      sent_at = pos 5000;
      write_ok = true;
      reply = some (pos 4300, pos 4310);
      received_at = pos 5410;
    }
    ∷ []

abbrev settled : Server tenths
settled = (synchronise tenths 0 rounds_met 2 true (codes "x") let_in).0

abbrev listening : System tenths
listening = record { server = settled; phase = set_phase 0 reading arrived.phase }

listening-Reach : Reach tenths listening
unfolding set_phase synchronise initial_handshake probe_rounds probe_round settle
listening-Reach = later arrived-Reach (synced 0 rounds_met 2 (codes "x") refl refl)

abbrev heard : System tenths
heard = record { server = attach tenths 0 9 settled; phase = listening.phase }

heard-Reach : Reach tenths heard
unfolding set_phase
heard-Reach = later listening-Reach (attached 0 9 refl)

abbrev left_alone : System tenths
left_alone = record {
  server = disconnect tenths 0 settled;
  phase = set_phase 0 closed listening.phase;
}

left_alone-Reach : Reach tenths left_alone
unfolding set_phase
left_alone-Reach = later listening-Reach (leave 0 refl)

left_alone_closed : (r : ℕ) → left_alone.phase r ≡ closed
unfolding set_phase
left_alone_closed r = ground arith

quiet_server_empty_example :
    let f : Float = tenths in
    let s : System f = left_alone in
    (s.server.session.clients ≡ [])
    × (s.server.stream.clients ≡ [])
    × (s.server.clock ≡ [])
    × (s.server.latency.reports ≡ [])
quiet_server_empty_example = quiet_server_empty tenths left_alone left_alone-Reach left_alone_closed

Reach-Inv_example : let f : Float = tenths in let s : System f = listening in Inv f s
Reach-Inv_example = Reach-Inv tenths listening listening-Reach

broadcast_reaches_example :
    let f : Float = tenths in
    let s : System f = heard in
    let r : ℕ = 0 in
    let sess = s.server.session in
    writes_to r (broadcast_to_all f s.server)
    ≡ due r (lookup (sess.heap r).id sess.clients) (sess.heap r).write_func
broadcast_reaches_example = broadcast_reaches tenths heard 0 heard-Reach

Reach-handles_example :
    let f : Float = tenths in
    let s : System f = listening in
    let ref : ℕ = 0 in
    let m : Message f = jitter_report (pos 420) 3 in
    (t : Server f) × (handle_message f ref m s.server ≡ some t)
    × Reach f (record { server = t; phase = s.phase })
unfolding set_phase
Reach-handles_example =
    Reach-handles tenths listening 0 (jitter_report (pos 420) 3) listening-Reach refl
