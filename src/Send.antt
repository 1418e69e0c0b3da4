-- ===== src/Send.antt =====
-- src/send.rs: the outbound worker's settings, its backoff, and what it uses of other libraries.
pub mod Queue
pub mod Enqueue
pub mod Sound
pub mod Producers
pub mod Delivery
pub mod Worker
pub mod Claims
pub mod Lifecycle
pub mod Attempt
pub mod Progress
pub mod Outcomes
pub mod Recovery
pub mod Backoff
pub mod Hosts
pub mod Trail
pub mod Audit
pub mod Totality
mod Examples
use zonemail.Prelude.{
  ℕ, zero, suc, ◌+◌, ◌-◌, ◌*◌, ◌^◌, min, ltb, if◌then◌else◌, Text, Bool, Option, List, Result,
}
use zonemail.Config.{OutboundTlsMode, OutboundTransport}

-- `std::time::Duration`
pub record Duration : Type 0 where
  pub secs : ℕ
  pub nanos : ℕ

abbrev pub from_secs : ℕ → Duration
from_secs n = record { secs = n; nanos = 0 }

-- `SUBMISSION_PORT`
abbrev pub submission_port : ℕ
submission_port = 25

-- `OutboundWorkerConfig`
pub record OutboundWorkerConfig : Type 0 where
  pub poll_interval : Duration
  pub max_attempts : ℕ
  pub base_backoff : Duration
  pub max_backoff : Duration
  pub transport : OutboundTransport
  pub submission_port : ℕ

-- `OutboundWorkerConfig::default`
abbrev pub default_config : OutboundWorkerConfig
default_config = record {
  poll_interval = from_secs 5;
  max_attempts = 8;
  base_backoff = from_secs 60;
  max_backoff = from_secs 3600;
  transport = record { tls = OutboundTlsMode.plain; relay = Option.none; insecure = Bool.false };
  submission_port = submission_port;
}

-- `OutboundWorkerConfig::with_submission_port`
abbrev pub with_submission_port : ℕ → OutboundWorkerConfig → OutboundWorkerConfig
with_submission_port port c = record c { submission_port = port }

-- `u64::saturating_mul`
abbrev pub saturating_mul : ℕ → ℕ → ℕ
saturating_mul a b = min (a * b) (2 ^ 64 - 1)

-- `backoff_delay`; `attempts - 1` is `saturating_sub`, and `1 << shift` stays below 2^63
unfoldable pub backoff_delay : OutboundWorkerConfig → ℕ → Duration
backoff_delay c attempts =
    let shift = min (attempts - 1) 62 in
    let multiplier = 2 ^ shift in
    let seconds = saturating_mul c.base_backoff.secs multiplier in
    from_secs (min seconds c.max_backoff.secs)

-- an `i64`, as a count of seconds ahead or back
pub data Seconds : Type 0 where
  ahead back : ℕ → Seconds

-- `delay.as_secs() as i64`, which wraps
abbrev pub as_i64 : ℕ → Seconds
as_i64 n = if ltb n (2 ^ 63) then ahead n else back (2 ^ 64 - n)

-- `hickory_resolver`'s MX record
pub record Mx : Type 0 where
  pub preference : ℕ
  pub exchange : Text

-- `lettre`'s `TlsParameters`, `Tls` and `Envelope`; an address is its text
pub record TlsParameters : Type 0 where
  pub domain : Text
  pub accept_invalid_hostnames : Bool
  pub accept_invalid_certs : Bool

pub data Tls : Type 0 where
  none : Tls
  opportunistic required wrapper : TlsParameters → Tls

pub record Envelope : Type 0 where
  pub from : Option Text
  pub to : List Text

-- One SMTP handoff, as `AsyncSmtpTransport` is built and used for it.
pub record Handoff : Type 0 where
  pub host : Text
  pub port : ℕ
  pub tls : Tls
  pub credentials : Option (Text × Text)
  pub envelope : Envelope
  pub raw : List ℕ

-- The code outside the repository. A number tells the calls apart, so that the same question may
-- have another answer later.
pub record Outside : Type 0 where
  -- the error of a database statement, or `none` where it takes effect
  pub db_fault : ℕ → Option Text
  -- the text of `toasty`'s error for a key that no row has
  pub not_found : Text
  -- `std::env::var(name).ok()`
  pub env_var : ℕ → Text → Option Text
  -- `str::parse::<lettre::Address>` and `Envelope::new`
  pub parse_address : Text → Result Text
  pub envelope_new : Option Text → List Text → Result Envelope
  -- `TokioAsyncResolver::tokio_from_system_conf` and `mx_lookup`
  pub system_conf : ℕ → Result (Unit {0})
  pub mx_lookup : ℕ → Text → Result (List Mx)
  -- `TlsParametersBuilder::build_native`
  pub build_native : TlsParameters → Result TlsParameters
  -- `now + jiff::Span::new().seconds(s)`, or `none` where one of the two panics
  pub add_span : ℕ → Seconds → Option ℕ
  -- `send_raw`: the debug text of the response, or the text of the error
  pub send_raw : ℕ → Handoff → Result Text
