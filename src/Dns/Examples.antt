-- ===== src/Dns/Examples.antt =====
-- src/dns.rs: the handler at one packet.
use zonemail.Prelude.{ℕ, ◌≢◌, refl, ok, Text, codes, true, none, some, Option, [], ◌∷◌}
use zonemail.Db.{World}
use zonemail.Db.RecordTypes.{RecordType, HickoryRecordType, from_hickory}
use zonemail.Dns.{DnsRequest, Wire, handle_dns_query}
use zonemail.Dns.Replies.{IsReply, handle_dns_query-IsReply}

abbrev answers : ℕ → Option Text
answers _ = none

abbrev zone : World
zone = record {
  domains = record { id = codes "z.net" } ∷ [];
  records =
      record {
        id = 1;
        domain_id = codes "z.net";
        record_type = RecordType.mx;
        value = codes "10 mail.z.net";
        ttl = 60;
      }
      ∷ [];
  mailboxes = [];
  messages = [];
  inbounds = [];
  outbounds = [];
  delivery_statuses = [];
  next_record = 2;
  next_message = 1;
  next_inbound = 1;
  next_outbound = 1;
  next_delivery = 1;
  calls = 0;
}

abbrev packet : DnsRequest
packet = record {
  id = 9;
  op_code = 0;
  recursion_desired = true;
  queries = record { name = codes "z.net."; query_type = HickoryRecordType.mx } ∷ [];
}

abbrev wire : Wire
wire = record {
  decode = λ _. ok packet;
  encode = λ r. ok (r.id ∷ []);
  send_to = λ _ _. none;
  parse_ipv4 = λ _. some 7;
  parse_name = λ n. some n;
}

mx_listed : from_hickory HickoryRecordType.mx ≢ none
unfolding from_hickory
mx_listed e = cc e

handle_dns_query-IsReply_example :
    IsReply wire answers zone.records packet (handle_dns_query wire answers (9 ∷ []) zone)
handle_dns_query-IsReply_example =
    handle_dns_query-IsReply wire answers (9 ∷ []) packet zone refl (mx_listed, tt)
