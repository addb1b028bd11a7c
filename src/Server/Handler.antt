-- ===== src/Server/Handler.antt =====
-- core/server.cpp and core/proxy.cpp: the events of a server's connection lose no command.
use redis_cerberus.Prelude.{ℕ, Bool, true, false, List, [], ◌∷◌, ◌++◌, Option, if◌then◌else◌}
use redis_cerberus.Response.{split_server_response}
use redis_cerberus.State.{CommandRef, Proxy}
use redis_cerberus.Client.{Input, Handled}
use redis_cerberus.Server.{After, goes_on, on_read, watch_server}
use redis_cerberus.Server.Waits.{Waits, answered_by}

-- What follows the writing.
watched : ℕ → Handled → Handled
watched s h = if h.1 then (h.0, true) else (watch_server s h.0, false)

-- The commands that the bytes read answer.
abbrev pub answered_at : ℕ → Input → Proxy → List (Option CommandRef)
answered_at s Input.fails p = []
answered_at s (Input.bytes []) p = []
answered_at s (Input.bytes (b ∷ bs)) p =
    answered_by s (split_server_response ((p.servers s).buffer ++ b ∷ bs)) p

-- The read, where there is one.
read_at : ℕ → Bool → Input → Proxy → Proxy × After
read_at s readable input p = if readable then on_read s input p else (p, goes_on)
