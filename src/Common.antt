-- ===== src/Common.antt =====
-- common/: bitmaps. The port instructions of common.c enter the model where they are used, as
-- values that a device delivers or as registers that are written.
pub mod Bitmap
