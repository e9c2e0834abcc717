-- ===== src/Metadata.antt =====
-- src/metadata: the metadata types and documents. `unicase_eq` is `unicase::eq`, and `R` is the type
-- of regular expressions of the regress crate.
pub mod Masterlist
pub mod Message
pub mod File
pub mod Group
pub mod Tag
pub mod Location
pub mod CleaningData
pub mod PluginName
pub mod Plugin
pub mod Document
pub mod Samples
pub mod Common
pub mod Equality
