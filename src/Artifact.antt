-- ===== src/Artifact.antt =====
-- microtensor_subnet/artifact: what is read of the files of a submitted artifact.
pub mod Gguf
