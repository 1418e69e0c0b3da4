-- ===== src/Dns/Replies.antt =====
-- src/dns.rs: the reply to a packet against the records and the queries.
use mathlib.Core.List.{Memᴰ}
use mathlib.Core.Path.{subst}
use zonemail.Prelude.{
  append_nil, append_assoc, ℕ, ◌≡◌, ◌≢◌, refl, sym, ◌∙◌, inl, inr, Text, text_eq, text_eq→≡, true,
  ◌&&◌, Option, none, some, List, [], ◌∷◌, ◌++◌, All, All-filter, All-imp, ap, ok, err,
  Option-cases, Result-cases, arith,
}
use zonemail.Db.{World, Record}
use zonemail.Db.Action.{tick}
use zonemail.Db.RecordTypes.{RecordType, from_hickory}
use zonemail.Db.Tables.{type_eq}
use zonemail.Dns.{
  DnsQuery, DnsRequest, DnsResponse, Answer, Wire, parse_rdata, clean, query_records, answers_of,
  with_answers, answer_queries, new_response, handle_dns_query, DnsOutcome, replied, broken,
  sent_or_broken, send_response,
}

-- where an answer comes from: a row of its query's name and type, whose value it parses
pub record IsFrom (wire : Wire) (records : List Record) (q : DnsQuery) (a : Answer) : Type 0 where
  pub row : Record
  pub stored : Memᴰ row records
  pub named : row.domain_id ≡ clean q.name
  pub typed :
      (t : RecordType) × (from_hickory q.query_type ≡ some t) × (type_eq row.record_type t ≡ true)
  pub parsed : parse_rdata wire q.query_type row.value ≡ some a.rdata
  pub name : a.name ≡ q.name
  pub ttl : a.ttl ≡ row.ttl

abbrev pub IsSourced : Wire → List Record → List DnsQuery → Answer → Type 0
IsSourced wire records qs a = (q : DnsQuery) × Memᴰ q qs × IsFrom wire records q a

members : {A : Type 0} (xs : List A) → All (λ x. Memᴰ x xs) xs
members [] = tt
members (x ∷ xs) = (Memᴰ.head refl, All-imp _ _ xs (λ y m. Memᴰ.tail m) (members xs))

All-append {ℓ} :
    {A : Type ℓ} (P : A → Type 0) (xs ys : List A) → All P xs → All P ys → All P (xs ++ ys)
All-append P [] ys h k = k
All-append P (x ∷ xs) ys h k = (h.0, All-append P xs ys h.1 k)

module _ (wire : Wire) (db_fault : ℕ → Option Text) where
  -- a row that a query found
  abbrev IsRow : List Record → DnsQuery → RecordType → Record → Type 0
  IsRow records q t r =
      Memᴰ r records × ((text_eq r.domain_id (clean q.name) && type_eq r.record_type t) ≡ true)

  answers-IsFrom :
      (records : List Record) (q : DnsQuery) (t : RecordType) (rows : List Record)
      → from_hickory q.query_type ≡ some t
      → All (IsRow records q t) rows
      → All (IsFrom wire records q) (answers_of wire db_fault q rows)
  unfolding answers_of
  answers-IsFrom records q t [] e h = tt
  answers-IsFrom records q t (r ∷ rows) e (h, hs) =
      elim (Option-cases (parse_rdata wire q.query_type r.value)) [
        | inl p ↦ rw p (answers-IsFrom records q t rows e hs)
        | inr (d, p) ↦ rw p (
          record {
            row = r;
            stored = h.0;
            named = text_eq→≡ r.domain_id (clean q.name) (ground (arith, h.1));
            typed = (t, e, ground (arith, h.1));
            parsed = p;
            name = refl;
            ttl = refl;
          },
          answers-IsFrom records q t rows e hs,
        )
      ]

  -- what a run of the loop comes to
  record Builds (records : List Record) (asked qs : List DnsQuery) (before : DnsResponse)
      (out : Option DnsResponse × World) : Type 0 where
    pub response : DnsResponse
    pub replied : out.0 ≡ some response
    pub echoed : response.queries ≡ before.queries ++ qs
    pub id : response.id ≡ before.id
    pub answered : All (IsSourced wire records asked) response.answers
    pub unchanged : out.1.records ≡ records

  rows-IsRow :
      (q : DnsQuery) (t : RecordType) (w : World)
      → All (IsRow w.records q t) (query_records wire db_fault (clean q.name) t w).0
  rows-IsRow q t w = elim (Option-cases (db_fault w.calls)) [
    | inl e ↦ rw e (All-filter (λ r. Memᴰ r w.records) _ w.records (members w.records))
    | inr (x, e) ↦ rw e tt
  ]

  query_records-tick :
      (name : Text) (t : RecordType) (w : World) → (query_records wire db_fault name t w).1 ≡ tick w
  query_records-tick name t w = elim (Option-cases (db_fault w.calls)) [
    | inl e ↦ rw e refl
    | inr (x, e) ↦ rw e refl
  ]

  answer_queries-Builds :
      (asked qs : List DnsQuery) (before : DnsResponse) (w : World)
      → All (λ q. from_hickory q.query_type ≢ none) qs
      → All (λ q. Memᴰ q asked) qs
      → All (IsSourced wire w.records asked) before.answers
      → Builds w.records asked qs before (answer_queries wire db_fault qs before w)
  unfolding answer_queries
  answer_queries-Builds asked [] before w listed among h = record {
    response = before;
    replied = refl;
    echoed = sym (append_nil before.queries);
    id = refl;
    answered = h;
    unchanged = refl;
  }
  answer_queries-Builds asked (q ∷ qs) before w listed among h =
      elim (Option-cases (from_hickory q.query_type)) [
        | inl e ↦ absurd (listed.0 e)
        | inr (t, e) ↦
            let rows = (query_records wire db_fault (clean q.name) t w).0 in
            let found =
              All-imp _ (IsSourced wire w.records asked) _ (λ a f. (q, among.0, f))
                (answers-IsFrom w.records q t rows e (rows-IsRow q t w)) in
            let later =
              answer_queries-Builds asked qs (with_answers wire db_fault q rows before) (tick w)
                listed.1 among.1 (All-append _ before.answers _ h found) in
            rw (e, query_records-tick (clean q.name) t w)
              (record {
                response = later.response;
                replied = later.replied;
                echoed = later.echoed ∙ append_assoc before.queries (q ∷ []) qs;
                id = later.id;
                answered = later.answered;
                unchanged = later.unchanged;
              })
      ]

  -- How a response ends: its bytes are sent, or the handler fails with the error of the encoding or
  -- of the socket.
  pub data Ends (response : DnsResponse) : DnsOutcome → Type 0 where
    sent :
        {bytes : List ℕ} (n : ℕ)
        → wire.encode response ≡ ok bytes
        → wire.send_to n bytes ≡ none
        → Ends response (replied bytes)
    unsent :
        {bytes : List ℕ} {e : Text} (n : ℕ)
        → wire.encode response ≡ ok bytes
        → wire.send_to n bytes ≡ some e
        → Ends response (broken e)
    unencoded : {e : Text} → wire.encode response ≡ err e → Ends response (broken e)

  sent_or_broken-Ends :
      (response : DnsResponse) (bytes : List ℕ) (n : ℕ)
      → wire.encode response ≡ ok bytes
      → Ends response (sent_or_broken wire db_fault (wire.send_to n bytes) bytes)
  sent_or_broken-Ends response bytes n e = elim (Option-cases (wire.send_to n bytes)) [
    | inl s ↦ rw s (sent n e s)
    | inr (x, s) ↦ rw s (unsent n e s)
  ]

  -- the reply to `request` over these records, and how the handler ends
  pub record IsReply (records : List Record) (request : DnsRequest) (out : DnsOutcome × World)
      : Type 0 where
    pub response : DnsResponse
    pub ends : Ends response out.0
    pub echoed : response.queries ≡ request.queries
    pub id : response.id ≡ request.id
    pub answered : All (IsSourced wire records request.queries) response.answers
    pub unchanged : out.1.records ≡ records

  send_response-IsReply :
      (request : DnsRequest) (records : List Record) (r : Option DnsResponse) (v : World)
      → Builds records request.queries request.queries (new_response wire db_fault request) (r, v)
      → IsReply records request (send_response wire db_fault r v)
  send_response-IsReply request records none v b = absurd (cc b.replied)
  send_response-IsReply request records (some response) v b =
      let same : response ≡ b.response = cc b.replied in
      let echoed : response.queries ≡ request.queries =
        ap (λ (x : DnsResponse). x.queries) same ∙ b.echoed in
      let id : response.id ≡ request.id = ap (λ (x : DnsResponse). x.id) same ∙ b.id in
      let answered : All (IsSourced wire records request.queries) response.answers =
        subst (λ (x : DnsResponse). All (IsSourced wire records request.queries) x.answers)
          (sym same) b.answered in
      elim (Result-cases (wire.encode response)) [
        | inl (bytes, e) ↦ rw e (record {
          response = response;
          ends = sent_or_broken-Ends response bytes v.calls e;
          echoed = echoed;
          id = id;
          answered = answered;
          unchanged = b.unchanged;
        })
        | inr (x, e) ↦ rw e (record {
          response = response;
          ends = unencoded e;
          echoed = echoed;
          id = id;
          answered = answered;
          unchanged = b.unchanged;
        })
      ]

  -- For a packet that decodes and whose query types the conversion lists, the handler builds a
  -- response with its id and its queries, whichever statements fail, and each answer in it comes
  -- from a stored row that has the name and the type of one of the queries, with that row's ttl and
  -- the data that its value parses to. Then the bytes of that response are sent, or the handler
  -- fails with the error of the encoding or of the socket. The records are unchanged.
  pub handle_dns_query-IsReply :
      (req_bytes : List ℕ) (request : DnsRequest) (w : World)
      → wire.decode req_bytes ≡ ok request
      → All (λ q. from_hickory q.query_type ≢ none) request.queries
      → IsReply w.records request (handle_dns_query wire db_fault req_bytes w)
  unfolding handle_dns_query
  handle_dns_query-IsReply req_bytes request w decoded listed = rw decoded (
      send_response-IsReply request w.records _ _ (
        answer_queries-Builds request.queries request.queries _ w listed (members request.queries)
          tt))
