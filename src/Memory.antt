-- ===== src/Memory.antt =====
-- Memory as the serializers see it: integers in little-endian bytes, and blocks that malloc
-- gives and memcpy reads and writes. The target is a 64-bit little-endian machine.
pub mod Little
pub mod Block
