-- ===== src/Api/Contracts/Server.antt =====
-- src/api.rs: all routes against the constraints of the tables and the state of the manager.
use zonemail.Prelude.{ℕ, Text, Option, none, some}
use zonemail.Db.{World}
use zonemail.Db.Integrity.{IsSound}
use zonemail.Services.{Service, BootMode, parse}
use zonemail.Services.Manager.{SocketAddr, Manager}
use zonemail.Services.Consistency.{IsConsistent, start_one, stop_one, mode_to, execute-IsConsistent}
use zonemail.Send.{Outside}
use zonemail.Api.{Reply, done, failed, Handler, Backend}
use zonemail.Api.Mail.{Mailer}
use zonemail.Api.Control.{
  list_services, stop_parsed, stop_service, start_parsed, start_service, set_mode,
}
use zonemail.Api.Server.{Request, Site, on_world, on_manager, serve}
use zonemail.Api.Contracts.{Keeps, Post}
use zonemail.Api.Contracts.Domains
use zonemail.Api.Contracts.Mailboxes
use zonemail.Api.Contracts.Records
use zonemail.Api.Contracts.Messages
use zonemail.Api.Contracts.Mail

-- the constraints of the tables, and the agreement of the manager's slots with the tasks
pub record IsWell (s : Site) : Type 0 where
  pub sound : IsSound s.world
  pub consistent : IsConsistent s.manager

after_reply {ℓ} : {A : Type ℓ} (r : Reply A) {w : World} → Post (λ _. IsSound) r w → IsSound w
after_reply (done a) p = p
after_reply (failed code problem) p = p

kept {ℓ} :
    {A : Type ℓ} (h : Handler A) (w : World) (m : Manager)
    → Keeps h
    → IsSound w
    → IsConsistent m
    → IsWell (on_world (h w) m).1
kept h w m k s c = record { sound = after_reply (h w).0 (k.at w s); consistent = c }

module _ (b : Backend) (o : Outside) (mailer : Mailer) (show : ℕ → Text)
    (spawn_error : ℕ → Service → SocketAddr → Option Text) where
  started-IsConsistent :
      (name : Text) (svc : Option Service) {m : Manager}
      → IsConsistent m
      → IsConsistent (start_parsed spawn_error name svc m).1
  started-IsConsistent name none c = c
  started-IsConsistent name (some svc) c = execute-IsConsistent spawn_error (start_one svc) c

  stopped-IsConsistent :
      (name : Text) (svc : Option Service) {m : Manager}
      → IsConsistent m
      → IsConsistent (stop_parsed name svc m).1
  stopped-IsConsistent name none c = c
  stopped-IsConsistent name (some svc) c = execute-IsConsistent spawn_error (stop_one svc) c

  switched-IsConsistent :
      (mode : Option BootMode) {m : Manager}
      → IsConsistent m
      → IsConsistent (set_mode spawn_error mode m).1
  unfolding set_mode
  switched-IsConsistent none c = c
  switched-IsConsistent (some mode) c = execute-IsConsistent spawn_error (mode_to mode) c

  pub serve-IsWell :
      (q : Request) (w : World) (m : Manager)
      → IsSound w
      → IsConsistent m
      → IsWell (serve b o mailer show spawn_error q w m).1
  unfolding serve list_services stop_service start_service
  serve-IsWell Request.get_health w m s c = record { sound = s; consistent = c }
  serve-IsWell (Request.get_domains limit offset) w m s c =
      kept _ w m (Domains.Keeps-list_domains b limit offset) s c
  serve-IsWell (Request.post_domains body) w m s c =
      kept _ w m (Domains.Keeps-create_domain b body) s c
  serve-IsWell (Request.get_domain_at id) w m s c = kept _ w m (Domains.Keeps-get_domain b id) s c
  serve-IsWell (Request.patch_domain_at id body) w m s c =
      kept _ w m (Domains.Keeps-patch_domain b id body) s c
  serve-IsWell (Request.delete_domain_at id) w m s c =
      kept _ w m (Domains.Keeps-delete_domain b id) s c
  serve-IsWell (Request.get_mailboxes limit offset domain) w m s c =
      kept _ w m (Mailboxes.Keeps-list_mailboxes b limit offset domain) s c
  serve-IsWell (Request.post_mailboxes body) w m s c =
      kept _ w m (Mailboxes.Keeps-create_mailbox b body) s c
  serve-IsWell (Request.get_mailbox_at id) w m s c =
      kept _ w m (Mailboxes.Keeps-get_mailbox b id) s c
  serve-IsWell (Request.patch_mailbox_at id body) w m s c =
      kept _ w m (Mailboxes.Keeps-patch_mailbox b id body) s c
  serve-IsWell (Request.delete_mailbox_at id) w m s c =
      kept _ w m (Mailboxes.Keeps-delete_mailbox b id) s c
  serve-IsWell (Request.get_mailbox_messages id query limit offset) w m s c =
      kept _ w m (Messages.Keeps-list_mailbox_messages b show id query limit offset) s c
  serve-IsWell (Request.get_mailbox_inbox id limit offset) w m s c =
      kept _ w m (Messages.Keeps-list_mailbox_inbox b show id limit offset) s c
  serve-IsWell (Request.get_mailbox_sent id limit offset) w m s c =
      kept _ w m (Messages.Keeps-list_mailbox_sent b show id limit offset) s c
  serve-IsWell (Request.get_records limit offset domain type) w m s c =
      kept _ w m (Records.Keeps-list_records b limit offset domain type) s c
  serve-IsWell (Request.post_records body) w m s c =
      kept _ w m (Records.Keeps-create_record b body) s c
  serve-IsWell (Request.get_record_at id) w m s c =
      kept _ w m (Records.Keeps-get_record b show id) s c
  serve-IsWell (Request.patch_record_at id body) w m s c =
      kept _ w m (Records.Keeps-patch_record b show id body) s c
  serve-IsWell (Request.delete_record_at id) w m s c =
      kept _ w m (Records.Keeps-delete_record b show id) s c
  serve-IsWell (Request.post_mail body) w m s c =
      kept _ w m (Mail.Keeps-send_email o mailer body) s c
  serve-IsWell (Request.get_message_at id) w m s c =
      kept _ w m (Messages.Keeps-get_message b show id) s c
  serve-IsWell (Request.delete_message_at id) w m s c =
      kept _ w m (Messages.Keeps-delete_message b show id) s c
  serve-IsWell Request.get_services w m s c = record { sound = s; consistent = c }
  serve-IsWell (Request.post_mode mode) w m s c =
      elim mode as (λ x. IsWell (on_manager w (set_mode spawn_error x m)).1) [
        | none ↦ record { sound = s; consistent = switched-IsConsistent none c }
        | some x ↦ record { sound = s; consistent = switched-IsConsistent (some x) c }
      ]
  serve-IsWell (Request.post_start name) w m s c = record {
    sound = s;
    consistent = started-IsConsistent name (parse name) c;
  }
  serve-IsWell (Request.post_stop name) w m s c = record {
    sound = s;
    consistent = stopped-IsConsistent name (parse name) c;
  }
