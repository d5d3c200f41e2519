-- ===== src/Lib.antt =====
-- The electronic invoicing service for SIFEN, Paraguay's tax system: the rules of its domain and the
-- machinery that keeps its sending safe.
--
-- The parts and how they interact. A document is named by its CDC, 44 digits that hold the RUC of
-- the issuer, the number of the document, its date and a security code, with check digits of the RUC
-- and of the whole (Ruc, Cdc, Emission/SecurityCode). What the issuer configures is validated once
-- (Fiscal). Its number comes from the sequence of its key, which goes on through the series AA to ZZ
-- (Numbering). Its amounts are exact decimals (Decimal, Emission/Totals), and its draft is validated
-- before it is given totals (Emission/Draft). Signed documents are put together in lotes, which read
-- the CDCs, and events in batches (Transmission). A lote is sent once, its result is polled, and
-- what SIFEN never confirmed is recovered document by document; the cycle of a tenant runs these
-- steps in order (Transmission/Cycle). Every call of a SIFEN endpoint passes a circuit breaker
-- (Breaker). What may still happen to a document that was sent is ruled by the events of its issuer
-- and of its receiver (Events). What is done to a document is logged in a chain of hashes (Audit).
--
-- Files, with the source that each one models:
--   Ruc             apps/api/src/modules/fiscal-config/domain/ruc.ts: computeRucCheckDigit,
--                   createRuc, parseRuc, formatRuc
--   Fiscal/Profile  apps/api/src/modules/fiscal-config/domain/fiscal-profile.ts: createFiscalProfile
--   Fiscal/Timbrado apps/api/src/modules/fiscal-config/domain/timbrado.ts and expedition-point.ts
--   Cdc             apps/api/src/modules/emission/domain/cdc.ts: computeCdcCheckDigit, buildCdc,
--                   parseCdc
--   Decimal         apps/api/src/modules/emission/domain/decimal.ts: the class Decimal over its units
--                   of 10^-8; Decimal/Parse has Decimal.parse
--   Emission/Totals          apps/api/src/modules/emission/domain/invoice-totals.ts
--   Emission/Draft           apps/api/src/modules/emission/domain/invoice-draft.ts:
--                   validateInvoiceDraft; Draft/Checking has its loop, Draft/Address validateAddressBlock and validateGeography
--   Emission/SecurityCode    apps/api/src/modules/emission/domain/security-code.ts
--   Numbering       packages/db/src/series.ts and packages/db/src/document-number.ts: nextSeries,
--                   nextDocumentNumber; Numbering/Memory is a table that follows the laws
--   Audit           packages/db/src/audit-chain.ts: verifyAuditChain
--   Breaker         packages/sifen-gateway/src/resilience/circuit-breaker.ts: the fields of
--                   CircuitBreaker are a record, each method a function on it
--   Breaker/Gateway packages/sifen-gateway/src/resilience/circuit-breaker-gateway.ts: guard is begin
--                   and settle
--   Transmission/Lote        apps/api/src/modules/transmission/domain/lote-builder.ts
--   Transmission/Batch       apps/api/src/modules/transmission/domain/event-batch.ts
--   Transmission/Row         packages/db/src/schema.ts: the columns of lotes and documents
--   Transmission/Assemble    apps/api/src/modules/transmission/application/assemble-lotes.ts
--   Transmission/Send        send-lote.ts and ruc-block.ts of the same folder; Send/Store has the
--                   transactions of drizzle-lote-dispatch-store.ts, Send/Worker SendLote.execute,
--                   Send/Machine the workers that send at the same time
--   Transmission/Poll        poll-lote-result.ts, with Poll/Store (drizzle-lote-poll-store.ts)
--   Transmission/Recover     recover-lote-by-cdc.ts, with Recover/Store
--                   (drizzle-lote-recovery-store.ts)
--   Transmission/Cycle       transmission-cycle.ts: guard is guard_work, the other methods are
--                   functions on the state of a run
--   Events/Cancel, Nominate, Void, Receiver, Correction
--                   apps/api/src/modules/issuer-events/domain/cancel-rules.ts, nominate-rules.ts,
--                   void-rules.ts, receiver-event-rules.ts, receiver-correction-rules.ts
-- Each part has its definitions in the file of its name, its lemmas in the files below that, and runs
-- at concrete values in Tests. Prelude has what they share.
--
-- Conventions. A text is the list of its code units. A thrown error is the err of a Result, null and
-- undefined are none. An instant is the integer of its milliseconds; the breakers count from 0. The
-- names are those of the source in snake_case.
--
-- Bounds and fuel. A numeral is printed with more fuel than it has digits (Prelude/Texts). The draws
-- of a security code have no bound in the source: the model takes the number of draws that it may
-- make, and a code comes as soon as that is above the place of an accepted draw. The check of the
-- audit log loops over pages: fuel above the number of rows is enough where a page has a row or
-- more. All other loops run over a list or a text.
--
-- Parameters. The two statements on the table of sequences with what SQL says of them (TableLaws),
-- the random draws, the hash of an audit row, the size of a message and the lotes in process, the
-- request ids, the failures of the calls of a store (StoreFailures of Send/Worker, and the errors
-- that the calls of the cycle and of the assembly answer), the answers of the gateway of SIFEN, the
-- tables of Unicode for the marks, the case and the spaces of a text, the geographic table, and the
-- store of the assembly and of the cycle. The row of a lote is a record that each transaction maps
-- to the next one; two workers are the row at two moments, or the steps of a machine.
--
-- Not modelled: the drafts of notes and remissions, the use cases of the events and of the emission,
-- their repositories, the controllers, the XML and SOAP, the keys and certificates, the printing,
-- the web application, and the reading of the body of a receiver's event. The clearing of the flag
-- of the synchronous service after 1264, whose failure the source ignores, is left out too. The
-- messages of the refusals are constants of their rules and are left out, as is the observer of a
-- circuit breaker.
pub mod Prelude
pub mod Ruc
pub mod Fiscal
pub mod Cdc
pub mod Decimal
pub mod Emission
pub mod Numbering
pub mod Audit
pub mod Breaker
pub mod Transmission
pub mod Events
