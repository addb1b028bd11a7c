-- ===== src/Tests/Rounds.antt =====
-- A round of the event loop at a concrete state.
use redis_cerberus.Prelude.{true, List, [], ◌∷◌, codes, refl}
use redis_cerberus.State.{Server, Proxy, set_server}
use redis_cerberus.Buffer.{room}
use redis_cerberus.Client.{Input}
use redis_cerberus.Proxy.EventLoop.{Event, server_event, client_event, handle_events}
use redis_cerberus.Proxy.EventLoop.Faults.{hung, readable}
use redis_cerberus.Idle.{IsIdle, set_server-IsIdle, set_open-IsIdle}
use redis_cerberus.Idle.Rounds.{handle_events-IsIdle}
use redis_cerberus.Tests.Thread.{thread, settings, idle_server, busy_server}

-- Server 0 has commands, and server 1 is closed.
abbrev closed_server : Server
closed_server = record idle_server { closed = true }

abbrev working_thread : Proxy
working_thread = set_server 0 busy_server (set_server 1 closed_server thread)

thread-IsIdle : IsIdle thread
thread-IsIdle s gone = absurd (cc)

working_thread-IsIdle : IsIdle working_thread
working_thread-IsIdle =
    set_open-IsIdle 0 busy_server (set_server 1 closed_server thread) refl
      (set_server-IsIdle 1 closed_server thread (λ _. (refl, refl)) thread-IsIdle)

-- Server 0 hangs up, and client 0 asks for a key.
abbrev events : List Event
events =
    server_event 0 hung (Input.bytes []) []
    ∷ client_event 0 readable (record {
      input = Input.bytes (codes "*2\r\n$3\r\nGET\r\n$1\r\na\r\n");
      first = room 9 ∷ [];
      second = [];
    })
    ∷ []

handle_events-IsIdle_example : IsIdle (handle_events settings [] events working_thread)
handle_events-IsIdle_example =
    handle_events-IsIdle settings [] events working_thread working_thread-IsIdle
