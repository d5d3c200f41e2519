-- ===== src/Events.antt =====
-- apps/api/src/modules/issuer-events/domain: the rules of the events on documents already sent.
-- An instant is the integer of its milliseconds since 1970. A refusal carries its rule, its SIFEN code
-- and its data; the message for a person is a constant of the rule and is left out. `null` and an
-- absent field are `none`.
pub mod Cancel
pub mod Nominate
pub mod Void
pub mod Receiver
pub mod Correction
