-- ===== src/Configuration.antt =====
-- main.cpp: `Configuration`, and what `run` takes from it. What `getopt` gives is an argument, one option
-- after the other: its letter, with its text. `none` tells that the program exits with status 1,
-- which `main` also returns for an exception.
pub mod Lookup
use redis_cerberus.Prelude.{
  ℕ, Bool, true, false, not, ◌||◌, ◌&&◌, ◌==◌, List, [], ◌∷◌, ◌++◌, Bytes, codes, Option, none,
  some, bytes_eq, if◌then◌else◌,
}
use redis_cerberus.Prelude.Int.{ℤ, is_positive_ℤ}
use redis_cerberus.Text.Address.{Address}
use redis_cerberus.Text.Atoi.{atoi}
use redis_cerberus.Text.HostPort.{to_option, from_hosts_ports}
use redis_cerberus.Text.Split.{split_str}
use redis_cerberus.Command.Parser.Keys.{is_nil}

-- `std::map`, in which a newer entry hides an older one of the same key.
abbrev pub Config : Type 0
Config = List (Bytes × Bytes)

unfoldable pub find_key : Bytes → Config → Option Bytes
unfolding bytes_eq
find_key k [] = none
find_key k ((j, v) ∷ config) = if bytes_eq j k then some v else find_key k config

-- A line is two words, or empty.
unfoldable pub set_words : List Bytes → Config → Option Config
set_words (k ∷ v ∷ []) config = some ((k, v) ∷ config)
set_words _ config = none

unfoldable pub read_line : Bytes → Config → Option Config
unfolding split_str set_words
read_line line config =
    if is_nil line then some config else set_words (split_str line (codes " ") true) config

-- The loop over the lines.
unfoldable pub read_lines : List Bytes → Config → Option Config
unfolding read_line
read_lines [] config = some config
read_lines (line ∷ lines) config = elim (read_line line config) [
  | none ↦ none
  | some more ↦ read_lines lines more
]

-- The key that the letter of an option stands for.
unfoldable pub option_key : ℕ → Option Bytes
option_key c =
    if c == b'b'
    then some (codes "bind")
    else if c == b'n'
    then some (codes "node")
    else if c == b't'
    then some (codes "thread")
    else if c == b'r'
    then some (codes "read-slave")
    else if c == b'R'
    then some (codes "read-slave-filter")
    else none

-- `_parse_opt`.
unfoldable pub parse_opt : List (ℕ × Bytes) → Config → Option Config
unfolding option_key
parse_opt [] config = some config
parse_opt ((c, optarg) ∷ opts) config = elim (option_key c) [
  | none ↦ none
  | some k ↦ parse_opt opts ((k, optarg) ∷ config)
]

-- `Configuration::Configuration` for a file that can be read. `std::getline` gives what stands
-- between line ends.
unfoldable pub configuration : Bytes → List (ℕ × Bytes) → Option Config
unfolding split_str read_lines parse_opt
configuration conf_file opts = elim (read_lines (split_str conf_file (codes "\n") false) []) [
  | none ↦ none
  | some config ↦ parse_opt opts config
]

-- `contains`, and `get` with a default and without one.
unfoldable pub contains_key : Bytes → Config → Bool
unfolding find_key
contains_key k config = elim (find_key k config) [ none ↦ false | some v ↦ true ]

unfoldable pub get_default : Bytes → Bytes → Config → Bytes
unfolding find_key
get_default k def config = elim (find_key k config) [ none ↦ def | some v ↦ v ]

-- What `run` sets before it starts the threads.
pub record Start : Type 0 where
  pub readonly : Bool
  pub slave : Option Bytes
  pub writes : Bool
  pub req_full_cov : Bool
  pub slow_poll_ms : ℤ
  pub bind_port : ℤ
  pub threads : ℤ
  pub remotes : Option (List Address)

-- A positive `int`, as the slow poll elapse and the thread count have to be.
unfoldable pub positive : ℤ → Bytes → Option ℤ
unfolding atoi
positive unset text = elim (to_option (atoi unset text)) [
  | none ↦ none
  | some n ↦ if is_positive_ℤ n then some n else none
]

unfoldable pub get_int : ℤ → Bytes → Config → Option ℤ
unfolding find_key atoi
get_int unset k config = elim (find_key k config) [
  | none ↦ none
  | some text ↦ to_option (atoi unset text)
]

-- The remotes, if there is a node in the configuration.
unfoldable pub get_remotes : ℤ → Config → Option (Option (List Address))
unfolding find_key from_hosts_ports
get_remotes unset config = elim (find_key (codes "node") config) [
  | none ↦ some none
  | some node ↦ elim (from_hosts_ports unset node) [ none ↦ none | some set ↦ some (some set) ]
]

infixl 5 ◌>>=◌
abbrev ◌>>=◌ {ℓ κ} : {A : Type ℓ} {B : Type κ} → Option A → (A → Option B) → Option B
none >>= f = none
some a >>= f = f a

-- `run` up to the start of the threads.
unfoldable pub run : ℤ → Config → Option Start
unfolding get_default positive get_int get_remotes
run unset config = do
  let readonly = bytes_eq (get_default (codes "read-slave") [] config) (codes "yes")
  slow_poll_ms ← positive unset (get_default (codes "slow-poll-elapse-ms") (codes "50") config)
  bind_port ← get_int unset (codes "bind") config
  threads ← positive unset (get_default (codes "thread") (codes "1") config)
  remotes ← get_remotes unset config
  some (record {
    readonly = readonly;
    slave = if readonly then some (get_default (codes "read-slave-filter") [] config) else none;
    writes = not readonly;
    req_full_cov =
        not (bytes_eq (get_default (codes "cluster-require-full-coverage") [] config) (codes "no"));
    slow_poll_ms = slow_poll_ms;
    bind_port = bind_port;
    threads = threads;
    remotes = remotes;
  })
