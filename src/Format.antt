-- ===== src/Format.antt =====
-- format: the package formats.
pub mod Golang
