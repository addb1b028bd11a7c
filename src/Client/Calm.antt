-- ===== src/Client/Calm.antt =====
-- core/client.cpp: `_write_response` where no system call fails.
use redis_cerberus.Prelude.{false, ◌≡◌}
use redis_cerberus.Client.{Handled}

abbrev Ends : Handled → Type 0
Ends h = h.1 ≡ false
