-- ===== src/Tests.antt =====
-- Runs of the definitions on concrete inputs, and the theorems at inputs that meet their hypotheses.
mod Thread
mod Nodes
mod Long
mod Coverage
mod Configured
mod Rounds
mod Threads
mod Answers
use redis_cerberus.Prelude.{
  List, ◌%◌, ◌+◌, ◌<◌, true, false, [], ◌∷◌, codes, length, ◌≡◌, ◌↔◌, refl, arith, Bytes, map, take,
}
use redis_cerberus.Prelude.Int.{pos, neg}
use redis_cerberus.SlotCalc.{slot_of}
use redis_cerberus.SlotCalc.Crc.{crc_from, crc_next_byte}
use redis_cerberus.SlotCalc.HashTag.{slot_of-hash_tag}
use redis_cerberus.Text.Compare.{stristartswith, stristartswith_iff, to_upper}
use redis_cerberus.Text.Decimal.{str}
use redis_cerberus.Message.Outcome.{ok}
use redis_cerberus.Message.Splitter.{split_by, parse, split_from, ◌>>=◌}
use redis_cerberus.Message.Split.{split_by-put_all, ends_after, finals}
use redis_cerberus.Message.Reply.{
  Reply, Replies, status, error, integer, bulk, nil_bulk, array, none_left, more, put, put_all,
  width, IsReply, AreReplies, depth, visit,
}
use redis_cerberus.Message.Reply.Visit.{parse-visit, ends}
use redis_cerberus.Message.Requests.{requests}
use redis_cerberus.Response.{
  normal, retry_moved_ask, asks_retry, ServerResponses, server_splitter, split_server_response,
}
use redis_cerberus.Response.Stream.{
  last_error_in, respond_all, respond, quiet, split_server_response-put_all,
}
use redis_cerberus.Command.Parser.Keys.{EachKey}
use redis_cerberus.Command.Table.{contains, find, standard_table, special_table}
use redis_cerberus.Command.Splitter.{Environment, split_client_command}
use redis_cerberus.Command.Request.{Request, args_of, AreRequests, group_of}
use redis_cerberus.Command.Request.Stream.{split_client_command-put_all}
use redis_cerberus.Buffer.{room, eagain, later, writev}

slot_of_foo : slot_of (codes "foo") ≡ 12182
unfolding slot_of crc_next_byte
slot_of_foo = refl

slot_of_tagged : slot_of (codes "x{foo}y") ≡ 12182
unfolding slot_of crc_next_byte
slot_of_tagged = refl

slot_of-hash_tag_example : slot_of (codes "x{foo}y") ≡ crc_from 0 (codes "foo") % 16384
slot_of-hash_tag_example = slot_of-hash_tag (codes "x{foo}y")

abbrev replies : Replies
replies = more (status (codes "OK")) (
    more (bulk (codes "a\r\nb")) (
      more (array (more (integer true 7) (more (error (codes "moved 1 h:1")) none_left)))
        (more nil_bulk none_left)))

put_all-replies :
    put_all replies [] ≡ codes "+OK\r\n$4\r\na\r\nb\r\n*2\r\n:-7\r\n-moved 1 h:1\r\n$-1\r\n"
unfolding put str
put_all-replies = refl

abbrev reply_bytes : Bytes
reply_bytes = put_all replies []

replies-AreReplies : AreReplies replies
unfolding AreReplies
replies-AreReplies = (
  (ground arith, (ground arith, tt)),
  (
    tt,
    (
      (
        tt,
        (
          (
            ground arith,
            (
              ground arith,
              (
                ground arith,
                (
                  ground arith,
                  (
                    ground arith,
                    (
                      ground arith,
                      (
                        ground arith,
                        (ground arith, (ground arith, (ground arith, (ground arith, tt)))),
                      ),
                    ),
                  ),
                ),
              ),
            ),
          ),
          tt,
        ),
      ),
      (tt, tt),
    ),
  ),
)

split_server_response-put_all_example :
    split_server_response reply_bytes ≡ ok (respond_all replies, [])
split_server_response-put_all_example = split_server_response-put_all replies replies-AreReplies

-- The reply with MOVED inside asks for a retry, and no other does.
respond_all-replies :
    respond_all replies
    ≡ normal (codes "+OK\r\n") false
      ∷ normal (codes "$4\r\na\r\nb\r\n") false
      ∷ retry_moved_ask
      ∷ normal (codes "$-1\r\n") false
      ∷ []
unfolding respond_all respond last_error_in asks_retry stristartswith put str
respond_all-replies = refl

abbrev start : ServerResponses
start = record { last_error = []; responses = [] }

split_by-put_all_example :
    split_by (server_splitter reply_bytes) reply_bytes 10 10 start
    ≡ ok (record {
      interrupted = false;
      split_points = ends_after 0 replies (0 ∷ []);
      nested = [];
      final = finals (server_splitter reply_bytes) 0 replies start;
    })
unfolding depth
split_by-put_all_example =
    split_by-put_all (server_splitter reply_bytes) (quiet reply_bytes).0 (quiet reply_bytes).1
      reply_bytes replies 10 10 start (omega arith) (ground arith) replies-AreReplies refl

-- An array inside of an array.
abbrev nested_reply : Reply
nested_reply =
    array (more (array (more (integer true 7) none_left)) (more (bulk (codes "x")) none_left))

parse-visit_example :
    parse (server_splitter (put nested_reply [])) (put nested_reply []) 5 0 (split_from 0 start)
    ≡ (visit (server_splitter (put nested_reply [])) 0 nested_reply
          >>= ends
              (server_splitter (put nested_reply []))
              (put nested_reply [])
              (0 + width nested_reply))
        (split_from 0 start)
unfolding depth IsReply
parse-visit_example =
    parse-visit (server_splitter (put nested_reply [])) (put nested_reply []) nested_reply 4 0 []
      (split_from 0 start) (ground arith) ((tt, tt), (tt, tt)) refl

stristartswith_iff_example :
    (stristartswith (codes "moved 1 h:1") (codes "MOVED") ≡ true)
    ↔ (map to_upper (take 5 (codes "moved 1 h:1")) ≡ map to_upper (codes "MOVED"))
stristartswith_iff_example = stristartswith_iff (codes "moved 1 h:1") (codes "MOVED")

-- A proxy that serves writes.
abbrev writer : Environment
writer = record { writes = true; unset = pos 0; random_slot = 0; stats = [] }

abbrev client_requests : List Request
client_requests =
    Request.standard (codes "get") (codes "a" ∷ [])
    ∷ Request.each_key EachKey.mget (codes "MGET") (codes "a" ∷ codes "{a}b" ∷ [])
    ∷ Request.unknown (codes "NOSUCH") (codes "a" ∷ codes "1" ∷ [])
    ∷ Request.mset (codes "mSet") ((codes "a", codes "1") ∷ (codes "b", codes "2") ∷ [])
    ∷ []

client_requests-AreRequests : AreRequests true client_requests
unfolding contains find to_upper standard_table special_table
client_requests-AreRequests = (
  (ground arith, refl),
  (
    (ground arith, (refl, refl)),
    ((ground arith, (refl, refl)), ((ground arith, (refl, refl)), tt)),
  ),
)

split_client_command-put_all_example :
    split_client_command writer (put_all (requests (map args_of client_requests)) [])
    ≡ ok (map group_of client_requests, [], [])
split_client_command-put_all_example =
    split_client_command-put_all writer client_requests client_requests-AreRequests

abbrev queue : List Bytes
queue = codes "abc" ∷ codes "de" ∷ codes "fgh" ∷ []

-- The first byte was written before; the socket takes four more.
writev-queue : writev 1024 3 queue 1 (room 4 ∷ eagain ∷ []) ≡ record {
  status = later;
  buffers = record { buf_arr = codes "fgh" ∷ []; first_offset = 0 };
  sent = codes "bcde";
}
unfolding writev
writev-queue = refl
