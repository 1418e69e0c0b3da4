-- ===== src/Examples.antt =====
-- src/db.rs: the conversions of the record types at one type.
use zonemail.Prelude.{◌≡◌, some}
use zonemail.Db.RecordTypes.{RecordType, IsCoded, from_hickory, to_hickory, from_hickory-to_hickory}

from_hickory-to_hickory_example :
    ((IsCoded RecordType.mx → ⊥) → from_hickory (to_hickory RecordType.mx) ≡ some RecordType.mx)
    × (IsCoded RecordType.mx → from_hickory (to_hickory RecordType.mx) ≡ some RecordType.unknown)
from_hickory-to_hickory_example = from_hickory-to_hickory RecordType.mx
