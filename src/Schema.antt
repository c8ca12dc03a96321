-- ===== src/Schema.antt =====
-- receipts-compiler/src/schema.rs: the data that the other modules exchange.
mod Float
mod Source
mod Evidence
mod Trust
mod Findings
mod Receipts
mod Snapshots
mod Packet
pub use Float.*
pub use Source.*
pub use Evidence.*
pub use Trust.*
pub use Findings.*
pub use Receipts.*
pub use Snapshots.*
pub use Packet.*
use agent_receipts.Prelude.{String}

abbrev pub receipts_schema_version : String
receipts_schema_version = "2.0.0"

abbrev pub receipts_hash_alg : String
receipts_hash_alg = "fnv1a-64"
