-- ===== src/Command/Table.antt =====
-- core/command.cpp: the tables by which a command's name, in upper case, selects its parser. A proxy
-- that serves writes enters the names of `allow_write_commands` into both tables.
use redis_cerberus.Prelude.{
  Bool, false, ◌||◌, List, [], ◌∷◌, ◌++◌, Bytes, codes, Option, none, some, bytes_eq, if◌then◌else◌,
}

-- `std::set::find`.
unfoldable pub contains : List Bytes → Bytes → Bool
unfolding bytes_eq
contains [] name = false
contains (x ∷ xs) name = bytes_eq x name || contains xs name

-- `STD_COMMANDS`, as the program starts.
unfoldable pub std_commands : List Bytes
std_commands =
    codes "DUMP"
    ∷ codes "EXISTS"
    ∷ codes "TTL"
    ∷ codes "PTTL"
    ∷ codes "TYPE"
    ∷ codes "GET"
    ∷ codes "BITCOUNT"
    ∷ codes "GETBIT"
    ∷ codes "GETRANGE"
    ∷ codes "STRLEN"
    ∷ codes "HGET"
    ∷ codes "HGETALL"
    ∷ codes "HKEYS"
    ∷ codes "HVALS"
    ∷ codes "HLEN"
    ∷ codes "HEXISTS"
    ∷ codes "HMGET"
    ∷ codes "HSCAN"
    ∷ codes "LINDEX"
    ∷ codes "LLEN"
    ∷ codes "LRANGE"
    ∷ codes "SCARD"
    ∷ codes "SISMEMBER"
    ∷ codes "SRANDMEMBER"
    ∷ codes "SMEMBERS"
    ∷ codes "SSCAN"
    ∷ codes "ZCARD"
    ∷ codes "ZSCAN"
    ∷ codes "ZCOUNT"
    ∷ codes "ZLEXCOUNT"
    ∷ codes "ZRANGE"
    ∷ codes "ZRANGEBYLEX"
    ∷ codes "ZREVRANGEBYLEX"
    ∷ codes "ZRANGEBYSCORE"
    ∷ codes "ZRANK"
    ∷ codes "ZREVRANGE"
    ∷ codes "ZREVRANGEBYSCORE"
    ∷ codes "ZREVRANK"
    ∷ codes "ZSCORE"
    ∷ []

-- `WRITE_COMMANDS`.
unfoldable pub write_commands : List Bytes
write_commands =
    codes "EXPIRE"
    ∷ codes "EXPIREAT"
    ∷ codes "TTL"
    ∷ codes "PEXPIRE"
    ∷ codes "PEXPIREAT"
    ∷ codes "PERSIST"
    ∷ codes "RESTORE"
    ∷ codes "SET"
    ∷ codes "SETNX"
    ∷ codes "GETSET"
    ∷ codes "SETEX"
    ∷ codes "PSETEX"
    ∷ codes "SETBIT"
    ∷ codes "APPEND"
    ∷ codes "SETRANGE"
    ∷ codes "INCR"
    ∷ codes "DECR"
    ∷ codes "INCRBY"
    ∷ codes "DECRBY"
    ∷ codes "INCRBYFLOAT"
    ∷ codes "HSET"
    ∷ codes "HSETNX"
    ∷ codes "HDEL"
    ∷ codes "HINCRBY"
    ∷ codes "HINCRBYFLOAT"
    ∷ codes "HMSET"
    ∷ codes "LINSERT"
    ∷ codes "LPOP"
    ∷ codes "RPOP"
    ∷ codes "LPUSH"
    ∷ codes "LPUSHX"
    ∷ codes "RPUSH"
    ∷ codes "RPUSHX"
    ∷ codes "LREM"
    ∷ codes "LSET"
    ∷ codes "LTRIM"
    ∷ codes "SORT"
    ∷ codes "SADD"
    ∷ codes "SPOP"
    ∷ codes "SREM"
    ∷ codes "ZADD"
    ∷ codes "ZREM"
    ∷ codes "ZINCRBY"
    ∷ codes "ZREMRANGEBYLEX"
    ∷ codes "ZREMRANGEBYRANK"
    ∷ codes "ZREMRANGEBYSCORE"
    ∷ []

-- The parsers that the map `SPECIAL_RSP` makes.
pub data Special : Type 0 where
  ping info proxy updateslotmap setremotes mget subscribe psubscribe : Special
  del mset rename publish keysinslot blpop brpop eval : Special

unfoldable pub find : List (Bytes × Special) → Bytes → Option Special
unfolding bytes_eq
find [] name = none
find ((key, s) ∷ rest) name = if bytes_eq key name then some s else find rest name

unfoldable pub special_rsp : List (Bytes × Special)
special_rsp =
    (codes "PING", ping)
    ∷ (codes "INFO", info)
    ∷ (codes "PROXY", proxy)
    ∷ (codes "UPDATESLOTMAP", updateslotmap)
    ∷ (codes "SETREMOTES", setremotes)
    ∷ (codes "MGET", mget)
    ∷ (codes "SUBSCRIBE", subscribe)
    ∷ (codes "PSUBSCRIBE", psubscribe)
    ∷ []

-- `SPECIAL_WRITE_COMMAND`.
unfoldable pub special_write_command : List (Bytes × Special)
special_write_command =
    (codes "DEL", del)
    ∷ (codes "MSET", mset)
    ∷ (codes "RENAME", rename)
    ∷ (codes "PUBLISH", publish)
    ∷ (codes "KEYSINSLOT", keysinslot)
    ∷ (codes "BLPOP", blpop)
    ∷ (codes "BRPOP", brpop)
    ∷ (codes "EVAL", eval)
    ∷ []

-- The tables, after `allow_write_commands` if the proxy called it. No name is in both halves of
-- `SPECIAL_RSP`, so `insert` never finds one there.
unfoldable pub standard_table : Bool → List Bytes
unfolding std_commands write_commands
standard_table writes = if writes then std_commands ++ write_commands else std_commands

unfoldable pub special_table : Bool → List (Bytes × Special)
unfolding special_rsp special_write_command
special_table writes = if writes then special_rsp ++ special_write_command else special_rsp
