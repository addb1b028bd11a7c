-- ===== src/Message.antt =====
-- core/message.hpp: the scanner of the redis protocol, over a buffer and a consumer of its events.
-- An iterator is a position in the buffer; `end` is the buffer's length. `Outcome` has the ways in
-- which a scan ends, and `Scan` the functions on plain ranges; `Splitter` is `MessageSplitterBase`
-- with the recursive `parse` over it.
pub mod Outcome
pub mod Scan
pub mod Splitter
pub mod Number
pub mod Reply
pub mod Split
pub mod Request
pub mod Requests
pub mod Format
