-- ===== src/Command/Parser.antt =====
-- core/command.cpp: the parsers of the special commands. A parser is told the arguments of its
-- command one by one, as ranges of the buffer, and makes a group of commands when the command ends.
-- `Range` reads a range; `Keys` has the commands that are split by key, `Rename` has RENAME,
-- `Single` those sent on whole and `Admin` those that the proxy answers itself.
pub mod Range
pub mod Keys
pub mod Rename
pub mod Single
pub mod Admin
