-- ===== src/Command/Request/Format.antt =====
-- core/message.cpp, `format_command`, and core/command.cpp, `split_client_command`: what the one writes is
-- read by the other.
use redis_cerberus.Prelude.{List, [], ◌∷◌, Bytes, ◌+◌, ◌<◌, ◌^◌, length, ◌≡◌, refl, ap, ◌∙◌, arith}
use redis_cerberus.Message.Outcome.{ok}
use redis_cerberus.Message.Reply.{put, put_all}
use redis_cerberus.Message.Request.{request}
use redis_cerberus.Message.Requests.{requests}
use redis_cerberus.Message.Format.{format_command, AreInts, format_command-put}
use redis_cerberus.Command.Request.{Request, args_of, AreRequests, group_of}
use redis_cerberus.Command.Request.Stream.{split_client_command-put_all}
use redis_cerberus.Command.Splitter.{Environment, split_client_command}

put_all-one : (texts : List Bytes) → put (request texts) [] ≡ put_all (requests (texts ∷ [])) []
unfolding put
put_all-one texts = refl

-- What `format_command` writes for the texts of a request, of a standard command, MGET, DEL, MSET or a name
-- in no table, is split by `split_client_command` into the one group of that request, as its texts
-- alone tell, and used up, without an effect on the proxies. The request has at most 1048576 texts,
-- and each text has a size that an `int` holds.
pub split_client_command-format_command :
    (env : Environment) (r : Request) (command : Bytes) (args : List Bytes)
    → args_of r ≡ command ∷ args
    → AreRequests env.writes (r ∷ [])
    → AreInts (command ∷ args)
    → split_client_command env (format_command command args) ≡ ok (group_of r ∷ [], [], [])
split_client_command-format_command env r command args texts ((size, named), w) ints =
    let few : length args + 1 < 2 ^ 31 = omega (arith, size, ap length texts) in
    ap (split_client_command env)
      (format_command-put command args few ints ∙ rw texts (put_all-one (command ∷ args)))
    ∙ split_client_command-put_all env (r ∷ []) ((size, named), w)
