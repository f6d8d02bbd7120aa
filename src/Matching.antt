-- ===== src/Matching.antt =====
-- src/matching: what the titles and the extracted fields of listings say of a product.
pub mod Condition
pub mod Category
pub mod Words
pub mod Keys
pub mod Board
pub mod Cpu
pub mod Gpu
pub mod LegacyParts
pub mod CoolerAge
pub mod Clearance
pub mod Unresolved
pub mod Sizes
pub mod FormFactors
pub mod PsuTrims
pub mod Vocabulary
pub mod TitleKeys
pub mod BuildKey
pub mod Audit
pub mod Brands
pub mod Rekey
pub mod RekeyParts
pub mod MatchingTests
