-- ===== src/Api/Server.antt =====
-- src/api.rs: `create_router`. A request names its route and has the parts that the handler reads;
-- `none` is a part that does not parse. The parts of the router that match a path are salvo's.
use zonemail.Prelude.{ℕ, Text, Option}
use zonemail.Db.{World}
use zonemail.Services.{Service, BootMode}
use zonemail.Services.Manager.{SocketAddr, Manager}
use zonemail.Send.{Outside}
use zonemail.Api.{Reply, done, failed, Backend}
use zonemail.Api.Domains.{
  NewDomain, PatchDomain, list_domains, create_domain, get_domain, patch_domain, delete_domain,
}
use zonemail.Api.Mailboxes.{
  NewMailbox, PatchMailbox, list_mailboxes, create_mailbox, get_mailbox, patch_mailbox,
  delete_mailbox,
}
use zonemail.Api.Records.{
  NewRecord, PatchRecord, list_records, create_record, get_record, patch_record, delete_record,
}
use zonemail.Api.Messages.{
  ListMessagesQuery, list_mailbox_messages, list_mailbox_inbox, list_mailbox_sent, get_message,
  delete_message,
}
use zonemail.Api.Mail.{SendEmail, Mailer, send_email}
use zonemail.Api.Control.{list_services, start_service, stop_service, set_mode}

pub data Request : Type 0 where
  get_health : Request
  get_domains : Option ℕ → Option ℕ → Request
  post_domains : Option NewDomain → Request
  get_domain_at : Text → Request
  patch_domain_at : Text → Option PatchDomain → Request
  delete_domain_at : Text → Request
  get_mailboxes : Option ℕ → Option ℕ → Option Text → Request
  post_mailboxes : Option NewMailbox → Request
  get_mailbox_at : Text → Request
  patch_mailbox_at : Text → Option PatchMailbox → Request
  delete_mailbox_at : Text → Request
  get_mailbox_messages : Text → Option ListMessagesQuery → Option ℕ → Option ℕ → Request
  get_mailbox_inbox : Text → Option ℕ → Option ℕ → Request
  get_mailbox_sent : Text → Option ℕ → Option ℕ → Request
  get_records : Option ℕ → Option ℕ → Option Text → Option Text → Request
  post_records : Option NewRecord → Request
  get_record_at : Option ℕ → Request
  patch_record_at : Option ℕ → Option PatchRecord → Request
  delete_record_at : Option ℕ → Request
  post_mail : Option SendEmail → Request
  get_services : Request
  post_mode : Option BootMode → Request
  post_start : Text → Request
  post_stop : Text → Request
  get_message_at : Option ℕ → Request
  delete_message_at : Option ℕ → Request

-- what the handlers share
pub record Site : Type 0 where
  pub world : World
  pub manager : Manager

-- the HTTP status
abbrev pub code_of {ℓ} : {A : Type ℓ} → Reply A → ℕ
code_of (done a) = 200
code_of (failed code problem) = code

abbrev pub on_world {ℓ} : {A : Type ℓ} → Reply A × World → Manager → ℕ × Site
on_world (r, w) m = (code_of r, record { world = w; manager = m })

abbrev pub on_manager {ℓ} : {A : Type ℓ} → World → Reply A × Manager → ℕ × Site
on_manager w (r, m) = (code_of r, record { world = w; manager = m })

module _ (b : Backend) (o : Outside) (mailer : Mailer) (show : ℕ → Text)
    (spawn_error : ℕ → Service → SocketAddr → Option Text) where
  -- `create_router`: the handler of each route
  unfoldable pub serve : Request → World → Manager → ℕ × Site
  serve get_health w m = (200, record { world = w; manager = m })
  serve (get_domains limit offset) w m = on_world (list_domains b limit offset w) m
  serve (post_domains body) w m = on_world (create_domain b body w) m
  serve (get_domain_at id) w m = on_world (get_domain b id w) m
  serve (patch_domain_at id body) w m = on_world (patch_domain b id body w) m
  serve (delete_domain_at id) w m = on_world (delete_domain b id w) m
  serve (get_mailboxes limit offset domain) w m =
      on_world (list_mailboxes b limit offset domain w) m
  serve (post_mailboxes body) w m = on_world (create_mailbox b body w) m
  serve (get_mailbox_at id) w m = on_world (get_mailbox b id w) m
  serve (patch_mailbox_at id body) w m = on_world (patch_mailbox b id body w) m
  serve (delete_mailbox_at id) w m = on_world (delete_mailbox b id w) m
  serve (get_mailbox_messages id query limit offset) w m =
      on_world (list_mailbox_messages b show id query limit offset w) m
  serve (get_mailbox_inbox id limit offset) w m =
      on_world (list_mailbox_inbox b show id limit offset w) m
  serve (get_mailbox_sent id limit offset) w m =
      on_world (list_mailbox_sent b show id limit offset w) m
  serve (get_records limit offset domain type) w m =
      on_world (list_records b limit offset domain type w) m
  serve (post_records body) w m = on_world (create_record b body w) m
  serve (get_record_at id) w m = on_world (get_record b show id w) m
  serve (patch_record_at id body) w m = on_world (patch_record b show id body w) m
  serve (delete_record_at id) w m = on_world (delete_record b show id w) m
  serve (post_mail body) w m = on_world (send_email mailer o body w) m
  serve get_services w m = on_manager w (list_services m)
  serve (post_mode mode) w m = on_manager w (set_mode spawn_error mode m)
  serve (post_start name) w m = on_manager w (start_service spawn_error name m)
  serve (post_stop name) w m = on_manager w (stop_service name m)
  serve (get_message_at id) w m = on_world (get_message b show id w) m
  serve (delete_message_at id) w m = on_world (delete_message b show id w) m
