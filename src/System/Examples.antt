-- ===== src/System/Examples.antt =====
-- The events of a short run at concrete tables.
use zonemail.Prelude.{◌*◌, ◌+◌, ℕ, Text, codes, none, some, Option, List, [], ◌∷◌, ok, err}
use zonemail.Services.{Service}
use zonemail.Services.Manager.{SocketAddr, new}
use zonemail.Services.Consistency.{new-IsConsistent}
use zonemail.Db.RecordTypes.{RecordType}
use zonemail.Send.{Outside, default_config, ahead, back}
use zonemail.Email.{no_headers}
use zonemail.Api.{Backend}
use zonemail.Api.Mail.{SendEmail, Mailer}
use zonemail.Api.Server.{Request, Site}
use zonemail.Api.Contracts.Server.{IsWell}
use zonemail.App.{MailboxEntry, SeedConfig}
use zonemail.System.{Event, happen_all, happen_all-IsWell}

abbrev backend : Backend
backend = record {
  db_fault = λ _. none;
  missing = codes "record not found";
  duplicate = codes "UNIQUE constraint failed";
  to_lowercase = λ t. t;
  type_name = λ _. codes "MX";
  parse_type = λ _. some RecordType.mx;
}

abbrev outside : Outside
outside = record {
  db_fault = λ _. none;
  not_found = codes "record not found";
  env_var = λ _ _. none;
  parse_address = λ a. ok a;
  envelope_new = λ from to. ok (record { from = from; to = to });
  system_conf = λ _. ok tt;
  mx_lookup = λ _ _. ok [];
  build_native = λ p. ok p;
  add_span = λ now s. elim s [ ahead n ↦ some (now + n * 1000000000) | back n ↦ none ];
  send_raw = λ _ h. err (codes "refused");
}

abbrev mailer : Mailer
mailer = record {
  parse_mailbox = λ a. ok a;
  parse_content_type = λ t. ok t;
  build =
      λ _. ok (record { envelope_from = some (codes "ann@z.net"); formatted = codes "Subject: x" });
  parse_mail = λ _. some no_headers;
}

abbrev config : SeedConfig
config = record {
  domains = codes "z.net" ∷ [];
  mailboxes = MailboxEntry.detailed (codes "ann@z.net") (some (codes "ann@b.org")) ∷ [];
  records = [];
}

abbrev mail : SendEmail
mail = record {
  from = codes "ann@z.net";
  to = codes "b@x.org" ∷ [];
  cc = [];
  bcc = [];
  subject = none;
  body = codes "hello";
  content_type = none;
}

abbrev spawn_works : ℕ → Service → SocketAddr → Option Text
spawn_works _ _ _ = none

abbrev no_digits : ℕ → Text
no_digits _ = codes "7"

abbrev at_port : ℕ → SocketAddr
at_port p = record { ip = codes "0.0.0.0"; port = p }

abbrev site : Site
site = record {
  world = record {
    domains = [];
    records = [];
    mailboxes = [];
    messages = [];
    inbounds = [];
    outbounds = [];
    delivery_statuses = [];
    next_record = 1;
    next_message = 1;
    next_inbound = 1;
    next_outbound = 1;
    next_delivery = 1;
    calls = 0;
  };
  manager = new (at_port 8081) (at_port 53) (at_port 25) none;
}

site-IsWell : IsWell site
site-IsWell = record {
  sound = record {
    domains = tt;
    mailboxes = tt;
    triples = tt;
    keys = tt;
    fresh = tt;
    inbound_links = tt;
    outbound_links = tt;
    senders = tt;
    deliveries = tt;
    numbered = ((tt, tt), (tt, tt), (tt, tt), (tt, tt));
  };
  consistent = new-IsConsistent (at_port 8081) (at_port 53) (at_port 25) none;
}

abbrev events : List Event
events =
    Event.start config
    ∷ Event.recipient (codes "<ann@z.net>") []
    ∷ Event.message (codes "x") (codes "ann@z.net" ∷ [])
    ∷ Event.request (Request.post_mail (some mail))
    ∷ Event.ticks (1 ∷ 2 ∷ [])
    ∷ Event.request (Request.delete_message_at (some 1))
    ∷ Event.request (Request.delete_domain_at (codes "z.net"))
    ∷ []

happen_all-IsWell_example :
    IsWell (happen_all backend outside default_config mailer no_digits spawn_works events site)
happen_all-IsWell_example =
    happen_all-IsWell backend outside default_config mailer no_digits spawn_works events site
      site-IsWell
