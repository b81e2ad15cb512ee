-- ===== src/Domain/Receipt.antt =====
-- The receipt's pages: `chunkReceiptLines` and `layoutReceiptRows` of
-- packages/shared/src/domain/ledger-math.ts. The loops are on an index, with fuel; `none` is a loop
-- that the fuel did not finish, which the theorems exclude.
pub mod Chunks
pub mod Pages
