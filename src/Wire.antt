-- ===== src/Wire.antt =====
-- protocol/dubbo/utils: the byte order functions, the values of an interface, and the buffers that
-- the codec works on.
pub mod Bytes
pub mod Object
pub mod Hessian
pub mod WriteBuffer
pub mod ReadBuffer
