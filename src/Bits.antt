-- ===== src/Bits.antt =====
-- datalab-handout/bits.c: the puzzles on the bits of a word, and datalab-handout/tests.c: what each
-- of them is to compute.
pub mod Word
pub mod Puzzles
pub mod Reference
pub mod Logic
pub mod Count
pub mod Shift
pub mod Compare
pub mod Log
pub mod Floats
pub mod Convert
mod Tests
