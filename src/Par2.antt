-- ===== src/Par2.antt =====
-- par2/packet.go and the files of the packet types: what a PAR2 file is made of.
pub mod Wire
pub mod Crc32
pub mod Packet
pub mod Recovery
pub mod Runes
pub mod Strings
pub mod Ifsc
pub mod Main
pub mod Volume
pub mod FileDescription
pub mod Scan
pub mod DataFile
