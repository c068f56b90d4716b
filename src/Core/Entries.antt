-- ===== src/Core/Entries.antt =====
-- crates/relos-core/src/entry.rs. `bincode` is outside the repository: a parameter, `Codec`.
-- A `HashMap` is an association list; the code never iterates over the headers itself.
use relos.Prelude.{◌≡◌, refl, Option, some, [], if◌then◌else◌}
use relos.Prelude.Bytes.{Bytes, Text, bytes_eq}
use relos.Prelude.Dict.{Dict, lookup, insert, lookup-insert}
use relos.Core.Errors.{Result, ok, err, serialization}

-- What `bincode` returns: a value, or an error with its text.
pub data Coded (A : Type 0) : Type 0 where
  coded : A → Coded A
  failed : Text → Coded A

pub record Codec (A : Type 0) : Type 0 where
  pub serialize : A → Coded Bytes
  pub deserialize : Bytes → Coded A

-- The documented behaviour of `bincode`: what it serialized it deserializes.
abbrev pub RoundTrips : {A : Type 0} → Codec A → Type 0
RoundTrips {A} c = (a : A) (b : Bytes) → c.serialize a ≡ coded b → c.deserialize b ≡ coded a

-- `.map_err(|e| RelosError::Serialization(e.to_string()))`
abbrev pub or_serialization_error : {A : Type 0} → Coded A → Result A
or_serialization_error (coded a) = ok a
or_serialization_error (failed e) = err (serialization e)

abbrev pub Headers : Type 0
Headers = Dict Bytes

pub record Entry : Type 0 where
  pub headers : Headers
  pub payload : Bytes

-- `Entry::new`
abbrev pub new : Bytes → Entry
new payload = record { headers = []; payload = payload }

unfoldable pub with_header : Entry → Text → Bytes → Entry
with_header e engine header = record e { headers = insert engine header e.headers }

pub payload-with_header :
    (e : Entry) (engine : Text) (header : Bytes) → (with_header e engine header).payload ≡ e.payload
unfolding with_header
payload-with_header e engine header = refl

unfoldable pub get_header : Entry → Text → Option Bytes
get_header e engine = lookup engine e.headers

pub to_bytes : Codec Entry → Entry → Result Bytes
to_bytes bincode e = or_serialization_error (bincode.serialize e)

pub from_bytes : Codec Entry → Bytes → Result Entry
from_bytes bincode b = or_serialization_error (bincode.deserialize b)

-- A header that is set is read back, and every other header is as it was.
pub get_header-with_header :
    (e : Entry) (engine other : Text) (header : Bytes)
    → get_header (with_header e engine header) other
      ≡ (if bytes_eq engine other then some header else get_header e other)
unfolding get_header with_header
get_header-with_header e engine other header = lookup-insert engine other header e.headers
