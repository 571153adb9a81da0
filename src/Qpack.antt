-- ===== src/Qpack.antt =====
-- QPACK of src/http3/qpack: prefixed integers and string literals (Prefix), the dynamic table (Table).
pub mod Prefix
pub mod Table
