-- ===== src/Wire.antt =====
-- scripts/pqwallet/pqtxtx.js: the wire format of PQ transactions.
pub mod Codec
pub mod LittleEndian
pub mod CompactSize
pub mod Payload
pub mod Serialize
pub mod Parse
pub mod Lists
pub mod Tail
pub mod Items
pub mod Canonical
pub mod PayloadTrip
pub mod ItemTrips
pub mod Written
pub mod RoundTrip
pub mod Examples
