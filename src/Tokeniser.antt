-- ===== src/Tokeniser.antt =====
-- internal/ui/widgets/tokeniser.go: raw HTTP text to coloured lines. A text is the list of its
-- runes; the width of a line in runes is an argument, since it comes from measuring a font.
pub mod Kinds
pub mod Json
pub mod Wrap
pub mod Document
mod Tests
