-- ===== src/Db/RecordTypes.antt =====
-- src/db.rs: `RecordType` and its conversions from and to the record types of `hickory_proto`.
use zonemail.Prelude.{ℕ, ◌≡◌, ◌⊎◌, refl, Option, none, some, arith}

-- `RecordType`
pub data RecordType : Type 0 where
  a aaaa aname any axfr caa cds cdnskey cert cname dname csync dnskey ds hinfo https ixfr key mx
        naptr :
      RecordType
  ns nsec nsec3 nsec3param null openpgpkey opt ptr rrsig sig smimea soa srv sshfp svcb tlsa tsig
        txt :
      RecordType
  unknown zero : RecordType

-- a number for each type, by which the derived `PartialEq` tells them apart
abbrev pub type_code : RecordType → ℕ
type_code RecordType.a = 0
type_code RecordType.aaaa = 1
type_code RecordType.aname = 2
type_code RecordType.any = 3
type_code RecordType.axfr = 4
type_code RecordType.caa = 5
type_code RecordType.cds = 6
type_code RecordType.cdnskey = 7
type_code RecordType.cert = 8
type_code RecordType.cname = 9
type_code RecordType.dname = 10
type_code RecordType.csync = 11
type_code RecordType.dnskey = 12
type_code RecordType.ds = 13
type_code RecordType.hinfo = 14
type_code RecordType.https = 15
type_code RecordType.ixfr = 16
type_code RecordType.key = 17
type_code RecordType.mx = 18
type_code RecordType.naptr = 19
type_code RecordType.ns = 20
type_code RecordType.nsec = 21
type_code RecordType.nsec3 = 22
type_code RecordType.nsec3param = 23
type_code RecordType.null = 24
type_code RecordType.openpgpkey = 25
type_code RecordType.opt = 26
type_code RecordType.ptr = 27
type_code RecordType.rrsig = 28
type_code RecordType.sig = 29
type_code RecordType.smimea = 30
type_code RecordType.soa = 31
type_code RecordType.srv = 32
type_code RecordType.sshfp = 33
type_code RecordType.svcb = 34
type_code RecordType.tlsa = 35
type_code RecordType.tsig = 36
type_code RecordType.txt = 37
type_code RecordType.unknown = 38
type_code RecordType.zero = 39

-- `hickory_proto::rr::RecordType`, as far as the conversions name it; `unlisted` stands for any
-- variant that they do not name.
pub data HickoryRecordType : Type 0 where
  a aaaa aname any axfr caa cds cdnskey cname csync dnskey ds hinfo https ixfr key mx naptr :
      HickoryRecordType
  ns nsec nsec3 nsec3param null openpgpkey opt ptr rrsig sig soa srv sshfp svcb tlsa tsig txt :
      HickoryRecordType
  unknown : ℕ → HickoryRecordType
  zero : HickoryRecordType
  unlisted : ℕ → HickoryRecordType

-- `From<HickoryRecordType> for RecordType`; `none` is its panic.
unfoldable pub from_hickory : HickoryRecordType → Option RecordType
from_hickory HickoryRecordType.a = some RecordType.a
from_hickory HickoryRecordType.aaaa = some RecordType.aaaa
from_hickory HickoryRecordType.aname = some RecordType.aname
from_hickory HickoryRecordType.any = some RecordType.any
from_hickory HickoryRecordType.axfr = some RecordType.axfr
from_hickory HickoryRecordType.caa = some RecordType.caa
from_hickory HickoryRecordType.cds = some RecordType.cds
from_hickory HickoryRecordType.cdnskey = some RecordType.cdnskey
from_hickory HickoryRecordType.cname = some RecordType.cname
from_hickory HickoryRecordType.csync = some RecordType.csync
from_hickory HickoryRecordType.dnskey = some RecordType.dnskey
from_hickory HickoryRecordType.ds = some RecordType.ds
from_hickory HickoryRecordType.hinfo = some RecordType.hinfo
from_hickory HickoryRecordType.https = some RecordType.https
from_hickory HickoryRecordType.ixfr = some RecordType.ixfr
from_hickory HickoryRecordType.key = some RecordType.key
from_hickory HickoryRecordType.mx = some RecordType.mx
from_hickory HickoryRecordType.naptr = some RecordType.naptr
from_hickory HickoryRecordType.ns = some RecordType.ns
from_hickory HickoryRecordType.nsec = some RecordType.nsec
from_hickory HickoryRecordType.nsec3 = some RecordType.nsec3
from_hickory HickoryRecordType.nsec3param = some RecordType.nsec3param
from_hickory HickoryRecordType.null = some RecordType.null
from_hickory HickoryRecordType.openpgpkey = some RecordType.openpgpkey
from_hickory HickoryRecordType.opt = some RecordType.opt
from_hickory HickoryRecordType.ptr = some RecordType.ptr
from_hickory HickoryRecordType.rrsig = some RecordType.rrsig
from_hickory HickoryRecordType.sig = some RecordType.sig
from_hickory HickoryRecordType.soa = some RecordType.soa
from_hickory HickoryRecordType.srv = some RecordType.srv
from_hickory HickoryRecordType.sshfp = some RecordType.sshfp
from_hickory HickoryRecordType.svcb = some RecordType.svcb
from_hickory HickoryRecordType.tlsa = some RecordType.tlsa
from_hickory HickoryRecordType.tsig = some RecordType.tsig
from_hickory HickoryRecordType.txt = some RecordType.txt
from_hickory HickoryRecordType.zero = some RecordType.zero
from_hickory (HickoryRecordType.unknown _) = some RecordType.unknown
from_hickory (HickoryRecordType.unlisted _) = none

-- `From<RecordType> for HickoryRecordType`
unfoldable pub to_hickory : RecordType → HickoryRecordType
to_hickory RecordType.a = HickoryRecordType.a
to_hickory RecordType.aaaa = HickoryRecordType.aaaa
to_hickory RecordType.aname = HickoryRecordType.aname
to_hickory RecordType.any = HickoryRecordType.any
to_hickory RecordType.axfr = HickoryRecordType.axfr
to_hickory RecordType.caa = HickoryRecordType.caa
to_hickory RecordType.cds = HickoryRecordType.cds
to_hickory RecordType.cdnskey = HickoryRecordType.cdnskey
to_hickory RecordType.cname = HickoryRecordType.cname
to_hickory RecordType.csync = HickoryRecordType.csync
to_hickory RecordType.dnskey = HickoryRecordType.dnskey
to_hickory RecordType.ds = HickoryRecordType.ds
to_hickory RecordType.hinfo = HickoryRecordType.hinfo
to_hickory RecordType.https = HickoryRecordType.https
to_hickory RecordType.ixfr = HickoryRecordType.ixfr
to_hickory RecordType.key = HickoryRecordType.key
to_hickory RecordType.mx = HickoryRecordType.mx
to_hickory RecordType.naptr = HickoryRecordType.naptr
to_hickory RecordType.ns = HickoryRecordType.ns
to_hickory RecordType.nsec = HickoryRecordType.nsec
to_hickory RecordType.nsec3 = HickoryRecordType.nsec3
to_hickory RecordType.nsec3param = HickoryRecordType.nsec3param
to_hickory RecordType.null = HickoryRecordType.null
to_hickory RecordType.openpgpkey = HickoryRecordType.openpgpkey
to_hickory RecordType.opt = HickoryRecordType.opt
to_hickory RecordType.ptr = HickoryRecordType.ptr
to_hickory RecordType.rrsig = HickoryRecordType.rrsig
to_hickory RecordType.sig = HickoryRecordType.sig
to_hickory RecordType.soa = HickoryRecordType.soa
to_hickory RecordType.srv = HickoryRecordType.srv
to_hickory RecordType.sshfp = HickoryRecordType.sshfp
to_hickory RecordType.svcb = HickoryRecordType.svcb
to_hickory RecordType.tlsa = HickoryRecordType.tlsa
to_hickory RecordType.tsig = HickoryRecordType.tsig
to_hickory RecordType.txt = HickoryRecordType.txt
to_hickory RecordType.zero = HickoryRecordType.zero
to_hickory RecordType.cert = HickoryRecordType.unknown 0x000A
to_hickory RecordType.dname = HickoryRecordType.unknown 0x0027
to_hickory RecordType.smimea = HickoryRecordType.unknown 0x0041
to_hickory RecordType.unknown = HickoryRecordType.unknown 0xFFFF

-- The types that `to_hickory` can only write as a number.
abbrev pub IsCoded : RecordType → Type 0
IsCoded t = (t ≡ RecordType.cert) ⊎ (t ≡ RecordType.dname) ⊎ (t ≡ RecordType.smimea)

-- The conversion to `hickory_proto` and back gives the type itself, but for CERT, DNAME and SMIMEA,
-- which come back as `Unknown`.
pub from_hickory-to_hickory :
    (t : RecordType)
    → ((IsCoded t → ⊥) → from_hickory (to_hickory t) ≡ some t)
      × (IsCoded t → from_hickory (to_hickory t) ≡ some RecordType.unknown)
unfolding from_hickory to_hickory
from_hickory-to_hickory RecordType.a = (λ _. refl, λ h. ground arith)
from_hickory-to_hickory _ = (λ n. ground arith, λ h. ground arith)
