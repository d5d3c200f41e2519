-- ===== src/Emission.antt =====
-- apps/api/src/modules/emission/domain: what a document is made of, next to its RUC, its CDC and its
-- amounts, which have modules of their own.
pub mod SecurityCode
pub mod Totals
pub mod Draft
