-- ===== src/Modem/Pdu.antt =====
-- src/sim_monitor/modem/pdu.py: the SMS PDU codec. Octets and septets are numbers.
pub mod Alphabet
pub mod Spelling
pub mod Hex
pub mod Address
pub mod Utf16
pub mod UserData
pub mod Decode
pub mod Encode
pub mod Received
pub mod Chunks
pub mod HexLaws
pub mod Message
pub mod Whole
pub mod Dialling
pub mod Submitted
pub mod Sizes
pub mod Unicode
pub mod HeaderLoop
pub mod Tests
pub mod Septets
pub mod Digits
pub mod Packing
pub mod Unpacking
