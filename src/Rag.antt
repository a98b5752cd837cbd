-- ===== src/Rag.antt =====
-- app/rag: the splitting of documents into chunks.
pub mod Splitting
pub mod Contents
pub mod Sections
pub mod Chunking
