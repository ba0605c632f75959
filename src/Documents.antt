-- ===== src/Documents.antt =====
-- apps/api/app/documents: the texts of documents.
pub mod Chunking
