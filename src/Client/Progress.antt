-- ===== src/Client/Progress.antt =====
-- core/client.cpp: `_send_buffer_set` writes out what is ready, where the socket goes on taking bytes.
use redis_cerberus.State.{Client}
