-- ===== src/Dns.antt =====
-- src/dns.rs: the answer to one packet. `hickory_proto` decodes and encodes the packets and parses
-- addresses and names, and the socket sends: they are parameters.
pub mod Replies
mod Examples
use zonemail.Prelude.{
  ℕ, ◌+◌, ◌-◌, ◌*◌, ◌==◌, leb, Text, text_eq, trim_end_matches, split_whitespace, Bool, true, false,
  ◌&&◌, Option, none, some, or_default, List, [], ◌∷◌, ◌++◌, filter, Result, ok, err, if◌then◌else◌,
}
use zonemail.Db.{World, Record}
use zonemail.Db.RecordTypes.{RecordType, HickoryRecordType, from_hickory}
use zonemail.Db.Action.{Action, exec, tick}
use zonemail.Db.Tables.{type_eq}

-- the parts of a query and of a decoded message that are read; a name is its text
pub record DnsQuery : Type 0 where
  pub name : Text
  pub query_type : HickoryRecordType

pub record DnsRequest : Type 0 where
  pub id : ℕ
  pub op_code : ℕ
  pub recursion_desired : Bool
  pub queries : List DnsQuery

-- `ResponseCode`
pub data ResponseCode : Type 0 where
  no_error nx_domain : ResponseCode

-- `RData`, as far as it is built
pub data RData : Type 0 where
  a : ℕ → RData
  txt : Text → RData
  mx : ℕ → Text → RData
  ptr : Text → RData

-- an answer of the response
pub record Answer : Type 0 where
  pub name : Text
  pub ttl : ℕ
  pub rdata : RData

pub record DnsResponse : Type 0 where
  pub id : ℕ
  pub op_code : ℕ
  pub recursion_desired : Bool
  pub recursion_available : Bool
  pub authoritative : Bool
  pub code : ResponseCode
  pub queries : List DnsQuery
  pub answers : List Answer

-- what `hickory_proto` and the socket answer
pub record Wire : Type 0 where
  -- `Message::from_vec` and `Message::to_vec`
  pub decode : List ℕ → Result DnsRequest
  pub encode : DnsResponse → Result (List ℕ)
  -- `UdpSocket::send_to`: the error of call number `n`, or `none` where the bytes are sent
  pub send_to : ℕ → List ℕ → Option Text
  -- `Ipv4Addr::from_str`, as a number, and `Name::from_str`
  pub parse_ipv4 : Text → Option ℕ
  pub parse_name : Text → Option Text

-- how the handler ends: the bytes are sent, the packet does not decode, an error is returned, or
-- the conversion of a query's type panics
pub data DnsOutcome : Type 0 where
  replied : List ℕ → DnsOutcome
  ignored : DnsOutcome
  broken : Text → DnsOutcome
  panicked : DnsOutcome

-- `u16::from_str`: an optional sign, then digits
abbrev digits : ℕ → Text → Option ℕ
digits acc [] = some acc
digits acc (c ∷ cs) =
    let rest = digits (acc * 10 + (c - 48)) cs in if leb 48 c && leb c 57 then rest else none

abbrev in_u16 : Option ℕ → Option ℕ
in_u16 none = none
in_u16 (some n) = if leb n 65535 then some n else none

abbrev unsigned : Text → Option ℕ
unsigned [] = none
unsigned (c ∷ cs) = in_u16 (digits 0 (c ∷ cs))

abbrev pub parse_u16 : Text → Option ℕ
parse_u16 [] = none
parse_u16 (c ∷ cs) = if c == b'+' then unsigned cs else unsigned (c ∷ cs)

abbrev with_name : Option Text → (Text → RData) → Option RData
with_name none f = none
with_name (some n) f = some (f n)

-- the arm `MX`
abbrev pub mx_rdata : Wire → List Text → Option RData
mx_rdata wire (pref ∷ host ∷ []) =
    with_name (wire.parse_name host) (λ n. RData.mx (or_default (parse_u16 pref) 10) n)
mx_rdata wire _ = none

-- `parse_rdata`
unfoldable pub parse_rdata : Wire → HickoryRecordType → Text → Option RData
parse_rdata wire HickoryRecordType.a value = elim (wire.parse_ipv4 value) [
  | none ↦ none
  | some ip ↦ some (RData.a ip)
]
parse_rdata wire HickoryRecordType.txt value = some (RData.txt value)
parse_rdata wire HickoryRecordType.mx value = mx_rdata wire (split_whitespace value)
parse_rdata wire HickoryRecordType.ptr value = with_name (wire.parse_name value) RData.ptr
parse_rdata wire _ value = none

-- `clean_name`
abbrev pub clean : Text → Text
clean name = trim_end_matches (λ c. c == b'.') name

module _ (wire : Wire) (db_fault : ℕ → Option Text) where
  abbrev pub or_empty : Result (List Record) → List Record
  or_empty (ok rows) = rows
  or_empty (err e) = []

  -- the rows of a name and a type
  abbrev pub rows_of : Text → RecordType → World → List Record
  rows_of name t w = filter (λ r. text_eq r.domain_id name && type_eq r.record_type t) w.records

  -- `query_records` of a type that the conversion lists
  abbrev pub query_records : Text → RecordType → World → List Record × World
  query_records name t w =
      let (rows, w') = exec db_fault (λ v. (rows_of name t v, v)) w in (or_empty rows, w')

  -- the loop over the rows
  abbrev pub add_answer : DnsQuery → Record → Option RData → List Answer → List Answer
  add_answer q r none rest = rest
  add_answer q r (some rdata) rest = record { name = q.name; ttl = r.ttl; rdata = rdata } ∷ rest

  unfoldable pub answers_of : DnsQuery → List Record → List Answer
  answers_of q [] = []
  answers_of q (r ∷ rows) =
      add_answer q r (parse_rdata wire q.query_type r.value) (answers_of q rows)

  abbrev pub code_for : List Record → ResponseCode
  code_for [] = nx_domain
  code_for (r ∷ rows) = no_error

  abbrev pub with_answers : DnsQuery → List Record → DnsResponse → DnsResponse
  with_answers q rows response = record response {
    queries = response.queries ++ q ∷ [];
    code = code_for rows;
    answers = response.answers ++ answers_of q rows;
  }

  abbrev pub or_panic :
      Option RecordType
      → (RecordType → World → Option DnsResponse × World)
      → World
      → Option DnsResponse × World
  or_panic none f w = (none, w)
  or_panic (some t) f w = f t w

  -- the loop over the queries; `none` is the panic of the conversion
  unfoldable pub answer_queries : List DnsQuery → DnsResponse → World → Option DnsResponse × World
  answer_queries [] response w = (some response, w)
  answer_queries (q ∷ qs) response w =
      or_panic (from_hickory q.query_type)
        (λ t v.
          let (rows, v') = query_records (clean q.name) t v in
          answer_queries qs (with_answers q rows response) v')
        w

  abbrev pub new_response : DnsRequest → DnsResponse
  new_response request = record {
    id = request.id;
    op_code = request.op_code;
    recursion_desired = request.recursion_desired;
    recursion_available = false;
    authoritative = true;
    code = no_error;
    queries = [];
    answers = [];
  }

  -- the socket's answer to the reply's bytes
  abbrev pub sent_or_broken : Option Text → List ℕ → DnsOutcome
  sent_or_broken none bytes = replied bytes
  sent_or_broken (some e) bytes = broken e

  abbrev pub send_bytes : Result (List ℕ) → World → DnsOutcome × World
  send_bytes (err e) w = (broken e, w)
  send_bytes (ok bytes) w = (sent_or_broken (wire.send_to w.calls bytes) bytes, tick w)

  -- `handle_dns_query` from the encoding on
  abbrev pub send_response : Option DnsResponse → World → DnsOutcome × World
  send_response none w = (panicked, w)
  send_response (some response) w = send_bytes (wire.encode response) w

  abbrev pub reply_to : Result DnsRequest → World → DnsOutcome × World
  reply_to (err e) w = (ignored, w)
  reply_to (ok request) w =
      let (response, v) = answer_queries request.queries (new_response request) w in
      send_response response v

  -- `handle_dns_query`
  unfoldable pub handle_dns_query : List ℕ → World → DnsOutcome × World
  handle_dns_query req_bytes w = reply_to (wire.decode req_bytes) w
