-- ===== src/Modem/AtParser.antt =====
-- src/sim_monitor/modem/at_parser.py: the parsers of AT answers, on lines without line breaks. `none`
-- stands for ATParseError, or for None where a parser returns None. `\d` is that of ASCII.
pub mod Scan
pub mod Fields
pub mod Replies
pub mod Contexts
pub mod Urcs
pub mod ServingCell
pub mod Radio
pub mod Listing
pub mod Relisting
pub mod Tests
