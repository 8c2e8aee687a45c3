-- ===== src/Bencode.antt =====
-- bencode/: the scanner behind `Valid` (scanner.go), Marshal (encode.go), and Unmarshal into an empty
-- interface (decode.go).
pub mod Scanner
pub mod Valid
pub mod Rounds
pub mod Encode
pub mod Decoded
pub mod Decode
pub mod Plain
pub mod Reads
pub mod Tokens
pub mod Walks
pub mod Places
pub mod Accepts
pub mod Heads
pub mod Around
pub mod Whole
pub mod Numbers
pub mod Scans
pub mod Strings
pub mod Reader
pub mod Calls
pub mod ReadBack
pub mod RoundTrip
