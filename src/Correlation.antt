-- ===== src/Correlation.antt =====
-- Package correlation: trace, span and request identifiers carried across process boundaries.
pub mod Ident
pub mod Context
pub mod Carry
pub mod Attrs
pub mod Adopt
pub mod Http
pub mod Grpc
pub mod Marker
pub mod Handler
