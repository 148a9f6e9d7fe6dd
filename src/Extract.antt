-- ===== src/Extract.antt =====
-- rice_factor/domain/services/json_extractor.py: the JSON object in the answer of a language model.
pub mod Scanner
pub mod Grammar
pub mod Matching
pub mod Closing
pub mod Objects
pub mod Extractor
pub mod Single
pub mod Whole
mod Examples
