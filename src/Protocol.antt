-- ===== src/Protocol.antt =====
-- The directory protocol: schemas, field values and the decoder of binary messages.
pub mod Message
pub mod FieldType
pub mod FieldValue
pub mod Schema
pub mod SchemaLoader
pub mod BinaryDecoder
