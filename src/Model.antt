-- ===== src/Model.antt =====
-- The values and codecs that the parts of the program exchange (src/apex/model/).
pub mod Extents
pub mod Frames
pub mod Marks
pub mod Runtime
pub mod Tests
