-- ===== src/Util.antt =====
-- The library under util/.
pub mod Log
pub mod Vector
pub mod RingBuffer
