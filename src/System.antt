-- ===== src/System.antt =====
-- The whole program as a sequence of events, each of one component: a start, an API request, a
-- recipient or a message of an SMTP session, or ticks of the outbound worker.
mod Examples
use zonemail.Prelude.{ℕ, Text, Option, List, [], ◌∷◌}
use zonemail.Db.{World}
use zonemail.Db.Integrity.{IsSound}
use zonemail.Services.{Service}
use zonemail.Services.Manager.{SocketAddr, Manager}
use zonemail.Send.{Outside, OutboundWorkerConfig}
use zonemail.Send.Worker.{run_outbound_worker}
use zonemail.Send.Sound.{run_outbound_worker-IsSound}
use zonemail.Email.{handle_rcpt, handle_email}
use zonemail.Email.Sound.{handle_rcpt-IsSound, handle_email-IsSound}
use zonemail.App.{SeedConfig, seed_from_config}
use zonemail.App.Seeding.{seed_from_config-IsSound}
use zonemail.Api.{Backend}
use zonemail.Api.Mail.{Mailer}
use zonemail.Api.Server.{Request, Site, serve}
use zonemail.Api.Contracts.Server.{IsWell, serve-IsWell}

pub data Event : Type 0 where
  start : SeedConfig → Event
  request : Request → Event
  recipient : Text → List Text → Event
  message : List ℕ → List Text → Event
  ticks : List ℕ → Event

abbrev pub with_world : Site → World → Site
with_world s w = record { world = w; manager = s.manager }

module _ (b : Backend) (o : Outside) (c : OutboundWorkerConfig) (mailer : Mailer) (show : ℕ → Text)
    (spawn_error : ℕ → Service → SocketAddr → Option Text) where
  unfoldable pub happen : Event → Site → Site
  happen (Event.start config) s = with_world s (seed_from_config b config s.world).1
  happen (Event.request q) s = (serve b o mailer show spawn_error q s.world s.manager).1
  happen (Event.recipient to recipients) s =
      with_world s (handle_rcpt o b.to_lowercase to recipients s.world).1
  happen (Event.message raw recipients) s =
      with_world s (handle_email o mailer.parse_mail raw recipients s.world).1
  happen (Event.ticks times) s = with_world s (run_outbound_worker o c times s.world)

  unfoldable pub happen_all : List Event → Site → Site
  happen_all [] s = s
  happen_all (e ∷ es) s = happen_all es (happen e s)

  happen-IsWell : (e : Event) (s : Site) → IsWell s → IsWell (happen e s)
  unfolding happen
  happen-IsWell (Event.start config) s h = record {
    sound = seed_from_config-IsSound b config s.world h.sound;
    consistent = h.consistent;
  }
  happen-IsWell (Event.request q) s h =
      serve-IsWell b o mailer show spawn_error q s.world s.manager h.sound h.consistent
  happen-IsWell (Event.recipient to recipients) s h = record {
    sound = handle_rcpt-IsSound o b.to_lowercase to recipients h.sound;
    consistent = h.consistent;
  }
  happen-IsWell (Event.message raw recipients) s h = record {
    sound = handle_email-IsSound o mailer.parse_mail raw recipients h.sound;
    consistent = h.consistent;
  }
  happen-IsWell (Event.ticks times) s h = record {
    sound = run_outbound_worker-IsSound o c times h.sound;
    consistent = h.consistent;
  }

  -- From sound tables and a consistent service manager, any sequence of starts, API requests,
  -- recipients and messages of SMTP sessions and ticks of the worker, one after another and
  -- whichever statements and calls fail, leaves sound tables and a consistent manager. Sound: in
  -- each table no two rows have the same key, and the keys that a counter gives are below the next;
  -- no two records agree in domain, type and value; the message of each inbound row and of each job
  -- is stored, and so are the mailbox of a job's sender and the job of a delivery report. It does
  -- not cover the recipient of an inbound row, nor the domain of a record or of a mailbox.
  pub happen_all-IsWell : (es : List Event) (s : Site) → IsWell s → IsWell (happen_all es s)
  unfolding happen_all
  happen_all-IsWell [] s h = h
  happen_all-IsWell (e ∷ es) s h = happen_all-IsWell es _ (happen-IsWell e s h)
