-- ===== src/TextEntry.antt =====
-- internal/ui/widgets/textviewentry.go: the editor for raw requests. A text is the list of its
-- runes. The renderer and the measuring of fonts are left out: the runes that fit on a line and the
-- lines that are visible are arguments, as is the position under the mouse.
pub mod Lines
pub mod State
pub mod Visual
pub mod Spot
pub mod Edits
pub mod Moves
pub mod Keys
pub mod Shortcuts
pub mod Mouse
pub mod Flat
pub mod Replace
pub mod Valid
pub mod Parts
pub mod Removal
pub mod Edited
pub mod Typing
pub mod Pasting
pub mod Slices
pub mod Pressed
pub mod Delete
pub mod Backspace
pub mod Breaking
pub mod Wrapping
pub mod Cursor
pub mod Moving
pub mod Walking
pub mod Selected
pub mod Cutting
mod Tests
