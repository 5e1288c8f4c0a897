-- ===== src/Parser.antt =====
-- packages/driver/src/parser: what tmux writes, from bytes to values.
pub mod OutputCodec
pub mod Tokens
pub mod Tokenizer
pub mod Correlator
pub mod LayoutString
pub mod Geometry
pub mod OscContent
pub mod NotifyScanner
pub mod TitleSniffer
pub mod Exchange
