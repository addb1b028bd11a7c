-- ===== src/Command/Parser/Admin.antt =====
-- core/command.cpp: the parsers of the commands that the proxy answers itself: PING, INFO and
-- PROXY, UPDATESLOTMAP and SETREMOTES. What they do to the proxies of all threads is a list of
-- effects, in order.
use redis_cerberus.Prelude.{
  ℕ, Bool, true, false, not, ◌||◌, List, [], ◌∷◌, ◌++◌, Bytes, codes, length, if◌then◌else◌,
}
use redis_cerberus.Prelude.Int.{ℤ}
use redis_cerberus.Text.Atoi.{atoi}
use redis_cerberus.Text.Decimal.{str}
use redis_cerberus.Text.Address.{Address, insert_address}
use redis_cerberus.Message.Outcome.{Outcome, ok, ◌>>=◌}
use redis_cerberus.Command.Group.{Group, direct, rsp_ok_str}
use redis_cerberus.Command.Parser.Keys.{is_nil}
use redis_cerberus.Command.Parser.Range.{range}

-- `cerb_global::set_remotes` and `notify_each_thread_update_slot_map`.
pub data Effect : Type 0 where
  set_remotes : List Address → Effect
  update_slot_map : Effect

-- `PingCommandParser` keeps the last argument.
abbrev pub ping_on_str : Bytes → ℕ → ℕ → Outcome Bytes
ping_on_str buf begin last = range buf begin last

unfoldable pub ping_spawn : Bytes → Group
ping_spawn msg =
    if is_nil msg
    then direct (codes "+PONG\r\n")
    else direct (b'$' ∷ (str (length msg) ++ (codes "\r\n" ++ (msg ++ codes "\r\n"))))

-- `stats` is what `stats_all` returns.
unfoldable pub proxy_stats_spawn : Bytes → Group
proxy_stats_spawn stats = direct (b'+' ∷ (stats ++ codes "\r\n"))

unfoldable pub update_slot_map_spawn : Group × List Effect
update_slot_map_spawn = (direct rsp_ok_str, update_slot_map ∷ [])

pub record SetRemotesParser : Type 0 where
  pub remotes : List Address
  pub last_host : Bytes
  pub current_is_host : Bool
  pub bad : Bool

abbrev pub set_remotes_parser : SetRemotesParser
set_remotes_parser = record { remotes = []; last_host = []; current_is_host = true; bad = false }

-- A port that is no number throws out of `atoi`; nothing sets `bad`.
unfoldable pub set_remotes_on_str : ℤ → Bytes → ℕ → ℕ → SetRemotesParser → Outcome SetRemotesParser
unfolding range atoi insert_address
set_remotes_on_str unset buf begin last p = if p.bad then ok p else (do
  text ← range buf begin last
  if p.current_is_host then ok (record p { last_host = text; current_is_host = false }) else (do
    port ← atoi unset text
    ok (record p {
      remotes = insert_address (record { host = p.last_host; port = port }) p.remotes;
      last_host = [];
      current_is_host = true;
    })))

unfoldable pub set_remotes_spawn : SetRemotesParser → Group × List Effect
set_remotes_spawn p =
    if p.bad
    then (direct (codes "-ERR invalid port number\r\n"), [])
    else if is_nil p.remotes || not p.current_is_host
    then (direct (codes "-ERR wrong number of arguments for 'SETREMOTES' command\r\n"), [])
    else (direct rsp_ok_str, set_remotes p.remotes ∷ update_slot_map ∷ [])
