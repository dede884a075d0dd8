-- ===== src/Extensions.antt =====
-- store.models/src/extensions.hpp: the string helpers. Strings are lists of bytes.
pub mod Case
pub mod JsonPath
pub mod Join
pub mod Trim
pub mod Split
pub mod Hex
pub mod Format
pub mod TypeName
pub mod Replace
