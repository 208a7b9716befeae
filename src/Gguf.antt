-- ===== src/Gguf.antt =====
-- GGUF files: the parser of bpd/llamatov_run.py (`parse_gguf`, `rv`), the header reader of
-- bpd-substrate/file-formats/gguf/output/gguf_reader.py, and the queries of ggufq.py beside it.
pub mod Stream
pub mod Value
pub mod Parse
pub mod Header
pub mod Query
pub mod QueryWritten
mod Tests
