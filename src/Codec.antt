-- ===== src/Codec.antt =====
-- protocol/dubbo/dubbo/codec.go: frames of a 16-byte header and a body of hessian objects.
pub mod Encode
pub mod Decode
pub mod Frame
pub mod Body
pub mod RoundTrip
pub mod Reads
pub mod Broken
pub mod Transport
