-- ===== src/Blob.antt =====
-- src/native/apxdb_collection.c: how a document becomes bytes. `size_t` is 64 bits wide and the
-- machine little-endian; sizes are unbounded numbers until they are stored in 32 bits.
pub mod Scalars
pub mod Size
pub mod Write
pub mod Read
pub mod Match
pub mod Print
pub mod LayoutRead
pub mod Fetch
pub mod Written
pub mod FieldPayload
pub mod Parts
pub mod Bytes
pub mod Meets
pub mod ListMeets
pub mod PlainField
pub mod ElementReads
pub mod ValueMeets
pub mod PrintLists
pub mod Fuel
pub mod MatchFuel
pub mod PayloadLength
pub mod Agree
pub mod Embedded
