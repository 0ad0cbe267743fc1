-- ===== src/Groups/Wire.antt =====
-- i2pchat/groups/wire.py: the texts that carry group messages. Texts of JSON and of times are parameters; an
-- exception is `none`.
pub mod Hex
pub mod Fields
pub mod Decoding
pub mod Encoding
pub mod Valid
pub mod Accepted
pub mod Reads
pub mod RoundTrip
pub mod Signed
