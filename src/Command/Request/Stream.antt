-- ===== src/Command/Request/Stream.antt =====
-- core/command.cpp: `split_client_command` over a buffer of whole requests.
use redis_cerberus.Prelude.{
  ℕ, ◌+◌, ◌<◌, ◌≤◌, List, [], ◌∷◌, ◌++◌, append_assoc, append-nil, map, Bytes, length, drop, ◌≡◌,
  refl, arith,
}
use redis_cerberus.Prelude.Int.{pos}
use redis_cerberus.Message.Outcome.{ok}
use redis_cerberus.Message.Reply.{put, put_all, width, width_all, count}
use redis_cerberus.Message.Reply.Visit.{drop-put}
use redis_cerberus.Message.Reply.Width.{length-put_all, depth_all-le-width_all}
use redis_cerberus.Message.Request.{bulks, request, count-bulks}
use redis_cerberus.Message.Splitter.{finished}
use redis_cerberus.Message.Requests.{requests, Serves, split_by-requests}
use redis_cerberus.Command.Group.{Group}
use redis_cerberus.Command.Request.{Request, args_of, AreRequests, group_of}
use redis_cerberus.Command.Splitter.{
  Environment, ClientCommands, client_commands, client_splitter, on_array, split_client_command,
}
use redis_cerberus.Command.Request.Serve.{between, ServesOne, Serves-one}

module _ (env : Environment) (buf : Bytes) where
  on_array-fits :
      (n : ℕ) (f : ClientCommands)
      → n ≤ 1048576
      → (client_splitter env buf).on_array (pos n) [] f ≡ ok f
  unfolding client_splitter on_array
  on_array-fits n f h = ground arith

  args_of-some : (r : Request) → 0 < length (args_of r)
  args_of-some (Request.standard name args) = omega arith
  args_of-some (Request.unknown name args) = omega arith
  args_of-some (Request.each_key kind name keys) = omega arith
  args_of-some (Request.mset name kvs) = omega arith

  Serves-all :
      (rs : List Request) (p : ℕ) (gs : List Group)
      → AreRequests env.writes rs
      → drop p buf ≡ put_all (requests (map args_of rs)) []
      → Serves
          (client_splitter env buf)
          buf
          p
          (map args_of rs)
          (between env buf p gs)
          (between env buf (p + width_all (requests (map args_of rs))) (gs ++ map group_of rs))
  unfolding width put ServesOne client_splitter
  Serves-all [] p gs w e = let place : p + 0 ≡ p = omega arith in rw (place, append-nil gs)
  Serves-all (r ∷ rs) p gs ((size, named), w) e =
      let q = p + width (request (args_of r)) in
      let few : count (bulks (args_of r)) ≤ 1048576 = omega (arith, count-bulks (args_of r)) in
      let (h, reads, split) =
        Serves-one env buf r p gs (put_all (requests (map args_of rs)) []) named e in
      let place : p + (width (request (args_of r)) + width_all (requests (map args_of rs)))
          ≡ q + width_all (requests (map args_of rs)) =
        omega arith in
      (
        args_of-some r,
        on_array-fits _ (between env buf p gs) few,
        h,
        reads,
        rw (split, place, ← append_assoc gs (group_of r ∷ []) (map group_of rs))
            (Serves-all rs q (gs ++ group_of r ∷ []) w (drop-put (request (args_of r)) buf p _ e)),
      )

-- A buffer that holds whole requests of standard commands, of MGET, DEL and MSET and of names in no
-- table becomes one group for each of them, in their order, and is used up, without an effect on the
-- proxies: a standard command is sent on byte for byte with the slot of its key; MGET, DEL and MSET
-- become one GET, DEL or SET for each key with the slot of that key; and a command that is unknown,
-- or that lacks its key, is answered with an error. The texts may hold any byte and the names may be
-- in any case; each request has at most 1048576 texts.
pub split_client_command-put_all :
    (env : Environment) (rs : List Request)
    → AreRequests env.writes rs
    → split_client_command env (put_all (requests (map args_of rs)) [])
      ≡ ok (map group_of rs, [], [])
unfolding split_client_command finished
split_client_command-put_all env rs w =
    let all = requests (map args_of rs) in
    let buf = put_all all [] in
    let size : length buf ≡ width_all all = omega (arith, length-put_all all []) in
    let room = depth_all-le-width_all all in
    rw
      (split_by-requests (client_splitter env buf) buf (map args_of rs) (length buf) (length buf)
        (client_commands 0) (between env buf (0 + width_all all) (map group_of rs)) (omega arith)
        (omega arith) (Serves-all env buf rs 0 [] w refl) refl)
      refl
