-- ===== src/Command/Parser/Rename/Steps.antt =====
-- core/command.cpp: RENAME between two slots, what its command is after each
-- answer.
use redis_cerberus.Prelude.{
  ℕ, ◌+◌, Bool, true, false, [], ◌∷◌, ◌++◌, Bytes, codes, length, bytes_eq, ◌==◌, ◌≡◌, refl, ap,
  ◌∙◌, arith,
}
use redis_cerberus.Text.Decimal.{str, str_digit}
use redis_cerberus.Message.Reply.{Reply, bulk, error, nil_bulk, put}
use redis_cerberus.Message.Reply.Width.{put-append}
use redis_cerberus.Message.Request.{request}
use redis_cerberus.Command.Group.{rsp_ok_str}
use redis_cerberus.Command.Parser.Rename.{
  RenameCommand, RenameStep, awaiting_get, awaiting_set, awaiting_del, rename_command, rsp_get,
  rsp_set, dispatch, on_remote_responsed,
}

-- What GET answers: an error, null, or the value.
pub data Got : Type 0 where
  failed : Bytes → Got
  missing : Got
  found : Bytes → Got

abbrev pub reply_of : Got → Reply
reply_of (failed text) = error text
reply_of missing = nil_bulk
reply_of (found value) = bulk value

abbrev pub is_failed : Got → Bool
is_failed (failed _) = true
is_failed _ = false

-- The messages that the servers get.
abbrev pub get_message : Bytes → Bytes
get_message old = put (request (codes "GET" ∷ old ∷ [])) []

abbrev pub set_message : Bytes → Bytes → Bytes
set_message new value = put (request (codes "SET" ∷ new ∷ value ∷ [])) []

abbrev pub del_message : Bytes → Bytes
del_message old = put (request (codes "DEL" ∷ old ∷ [])) []

-- A value is not taken for null: its length begins with a digit.
value_not_null : (value : Bytes) → bytes_eq (put (bulk value) []) (codes "$-1\r\n") ≡ false
unfolding put bytes_eq
value_not_null value =
    let (d, ds, h, e) = str_digit (length value) in
    let digit : ((b'0' + d) == b'-') ≡ false = ground arith in rw (e, digit) refl

null_bytes : put nil_bulk [] ≡ codes "$-1\r\n"
unfolding put
null_bytes = refl

-- The headers of the source are those of arrays of two and three texts.
pub get_message-header :
    (old : Bytes) → get_message old ≡ codes "*2\r\n$3\r\nGET\r\n" ++ put (bulk old) []
unfolding put str
get_message-header old = refl

set_message-put :
    (new value : Bytes)
    → set_message new value ≡ codes "*3\r\n$3\r\nSET\r\n" ++ put (bulk new) (put (bulk value) [])
unfolding put str
set_message-put new value = refl

set_message-header :
    (new value : Bytes)
    → set_message new value
      ≡ codes "*3\r\n$3\r\nSET\r\n" ++ (put (bulk new) [] ++ put (bulk value) [])
set_message-header new value =
    set_message-put new value
    ∙ ap (λ t. codes "*3\r\n$3\r\nSET\r\n" ++ t) (put-append (bulk new) [] (put (bulk value) []))

del_message-header :
    (old : Bytes) → del_message old ≡ codes "*2\r\n$3\r\nDEL\r\n" ++ put (bulk old) []
unfolding put str
del_message-header old = refl

-- The command while SET and while DEL are awaited.
module _ (old new : Bytes) (src dst : ℕ) where
  abbrev pub renaming : RenameCommand
  renaming = rename_command (put (bulk old) []) (put (bulk new) []) src dst

  abbrev pub setting : Bytes → RenameCommand
  setting value = record renaming {
    buffer = set_message new value;
    current_key_slot = dst;
    on_rsp = awaiting_set;
  }

  abbrev pub deleting : RenameCommand
  deleting = record renaming {
    buffer = del_message old;
    current_key_slot = src;
    on_rsp = awaiting_del;
  }

  pub on_remote_responsed-found :
      (value : Bytes) → on_remote_responsed (put (bulk value) []) false renaming ≡ setting value
  unfolding on_remote_responsed bytes_eq
  on_remote_responsed-found value = rw (value_not_null value, set_message-header new value) refl

  pub on_remote_responsed-stored :
      (rsp value : Bytes) → on_remote_responsed rsp false (setting value) ≡ deleting
  unfolding on_remote_responsed
  on_remote_responsed-stored rsp value = rw (del_message-header old) refl

-- The command once it is answered.
abbrev pub answered : Bytes → RenameCommand → RenameCommand
answered rsp c = record c { buffer = rsp; responsed = true }

pub on_remote_responsed-failed :
    (rsp old new : Bytes) (src dst : ℕ)
    → on_remote_responsed rsp true (renaming old new src dst)
      ≡ answered rsp (renaming old new src dst)
unfolding on_remote_responsed
on_remote_responsed-failed rsp old new src dst = refl

pub on_remote_responsed-missing :
    (old new : Bytes) (src dst : ℕ)
    → on_remote_responsed (put nil_bulk []) false (renaming old new src dst)
      ≡ answered (codes "-ERR no such key\r\n") (renaming old new src dst)
unfolding on_remote_responsed bytes_eq
on_remote_responsed-missing old new src dst = rw null_bytes refl

pub on_remote_responsed-not_stored :
    (rsp old new value : Bytes) (src dst : ℕ)
    → on_remote_responsed rsp true (setting old new src dst value)
      ≡ answered rsp (setting old new src dst value)
unfolding on_remote_responsed
on_remote_responsed-not_stored rsp old new value src dst = refl

-- Whatever the answer to DEL is.
pub on_remote_responsed-deleted :
    (rsp : Bytes) (err : Bool) (old new : Bytes) (src dst : ℕ)
    → on_remote_responsed rsp err (deleting old new src dst)
      ≡ answered rsp_ok_str (deleting old new src dst)
unfolding on_remote_responsed
on_remote_responsed-deleted rsp err old new src dst = refl

dispatch-error :
    (step : RenameStep) (rsp : Bytes) (c : RenameCommand)
    → (dispatch step rsp true c).responsed ≡ true
unfolding dispatch rsp_get rsp_set
dispatch-error awaiting_get rsp c = refl
dispatch-error awaiting_set rsp c = refl
dispatch-error awaiting_del rsp c = refl

-- An error is an answer to the client at every step.
pub on_remote_responsed-error :
    (rsp : Bytes) (c : RenameCommand) → (on_remote_responsed rsp true c).responsed ≡ true
unfolding on_remote_responsed
on_remote_responsed-error rsp c = dispatch-error c.on_rsp rsp c
