-- ===== src/Command.antt =====
-- core/command.hpp and command.cpp: the commands of a client, split out of its buffer and turned
-- into groups of commands for the servers. `Group` has the groups, `Parser` the parsers of the
-- special commands, `Table` the tables of names and `Splitter` the class that drives them.
pub mod Group
pub mod Parser
pub mod Table
pub mod Splitter
pub mod Request
