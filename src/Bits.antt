-- ===== src/Bits.antt =====
-- Laws of the native `bit_xor` and of the right shift, for numbers of every size.
mod Xor
mod Shift
pub use Xor.*
unfoldable pub use Shift.*
