-- ===== src/Qr.antt =====
-- The QR encoder (qr.go): byte mode, error correction level M, versions 1 to 10.
pub mod Field
pub mod Versions
pub mod Buffer
pub mod Encode
pub mod Grid
pub mod Patterns
pub mod Place
pub mod Mask
pub mod Penalty
