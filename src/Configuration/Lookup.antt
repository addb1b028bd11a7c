-- ===== src/Configuration/Lookup.antt =====
-- main.cpp: which value a key has.
use redis_cerberus.Prelude.{
  ℕ, Bool, true, false, ◌||◌, ◌&&◌, List, [], ◌∷◌, ◌++◌, Bytes, codes, Option, none, some, bytes_eq,
  if◌then◌else◌, ◌≡◌, refl, sym, ap, ◌∙◌,
}
use redis_cerberus.Text.Split.{split_str}
use redis_cerberus.Command.Parser.Keys.{is_nil}
use redis_cerberus.Configuration.{
  Config, find_key, set_words, read_line, read_lines, option_key, parse_opt, configuration,
}

abbrev pub or_else : Option Bytes → Option Bytes → Option Bytes
or_else none o = o
or_else (some v) o = some v

-- The last value of a key among settings in their order.
unfoldable pub last_for : Bytes → Config → Option Bytes
last_for k [] = none
last_for k ((j, v) ∷ settings) =
    or_else (last_for k settings) (if bytes_eq j k then some v else none)

-- The setting that a line makes, if it is well formed.
abbrev pub setting_of : List Bytes → Config
setting_of (k ∷ v ∷ []) = (k, v) ∷ []
setting_of _ = []

abbrev pub is_setting : List Bytes → Bool
is_setting (k ∷ v ∷ []) = true
is_setting _ = false

-- The words of a line.
abbrev pub words : Bytes → List Bytes
words line = split_str line (codes " ") true

unfoldable pub good_lines : List Bytes → Bool
good_lines [] = true
good_lines (line ∷ lines) = (is_nil line || is_setting (words line)) && good_lines lines

unfoldable pub file_settings : List Bytes → Config
file_settings [] = []
file_settings (line ∷ lines) =
    (if is_nil line then [] else setting_of (words line)) ++ file_settings lines

abbrev pub is_option : Option Bytes → Bool
is_option none = false
is_option (some k) = true

abbrev pub option_setting : Option Bytes → Bytes → Config
option_setting none v = []
option_setting (some k) v = (k, v) ∷ []

unfoldable pub good_options : List (ℕ × Bytes) → Bool
good_options [] = true
good_options ((c, optarg) ∷ opts) = is_option (option_key c) && good_options opts

unfoldable pub option_settings : List (ℕ × Bytes) → Config
option_settings [] = []
option_settings ((c, optarg) ∷ opts) = option_setting (option_key c) optarg ++ option_settings opts

-- A configuration in which each key has its last value among these settings, or that of an older
-- configuration; none where something was not well formed.
abbrev pub Holds : Config → Config → Config → Type 0
Holds old settings config =
    (k : Bytes) → find_key k config ≡ or_else (last_for k settings) (find_key k old)

abbrev pub Becomes : Bool → Config → Config → Option Config → Type 0
Becomes false old settings o = o ≡ none
Becomes true old settings o = (config : Config) × (o ≡ some config) × Holds old settings config

or_else_assoc : (a b d : Option Bytes) → or_else (or_else a b) d ≡ or_else a (or_else b d)
or_else_assoc none b d = refl
or_else_assoc (some v) b d = refl

or_else-none : (a : Option Bytes) → a ≡ or_else a none
or_else-none none = refl
or_else-none (some v) = refl

last_for-append :
    (k : Bytes) (xs ys : Config) → last_for k (xs ++ ys) ≡ or_else (last_for k ys) (last_for k xs)
unfolding last_for
last_for-append k [] ys = or_else-none (last_for k ys)
last_for-append k ((j, v) ∷ xs) ys =
    ap (λ o. or_else o (if bytes_eq j k then some v else none)) (last_for-append k xs ys)
    ∙ or_else_assoc (last_for k ys) (last_for k xs) (if bytes_eq j k then some v else none)

found_first :
    (b : Bool) (v : Bytes) (o : Option Bytes)
    → (if b then some v else o) ≡ or_else (if b then some v else none) o
found_first true v o = refl
found_first false v o = refl

-- One setting in front of others.
Becomes-cons :
    (good : Bool) (j v : Bytes) (old settings : Config) (o : Option Config)
    → Becomes good ((j, v) ∷ old) settings o
    → Becomes good old ((j, v) ∷ settings) o
unfolding find_key last_for
Becomes-cons false j v old settings o h = h
Becomes-cons true j v old settings o (config, e, holds) = (
  config,
  e,
  λ k.
      holds k
      ∙ ap (or_else (last_for k settings)) (found_first (bytes_eq j k) v (find_key k old))
      ∙ sym (
          or_else_assoc (last_for k settings) (if bytes_eq j k then some v else none)
            (find_key k old)),
)

parse_opt-Becomes :
    (opts : List (ℕ × Bytes)) (old : Config)
    → Becomes (good_options opts) old (option_settings opts) (parse_opt opts old)
unfolding parse_opt good_options option_settings last_for
parse_opt-Becomes [] old = (old, refl, λ k. refl)
parse_opt-Becomes ((c, optarg) ∷ opts) old =
    by_key (option_key c) (λ k. parse_opt-Becomes opts ((k, optarg) ∷ old))
  where
    by_key :
        (o : Option Bytes)
        → ((k : Bytes)
            → Becomes
                (good_options opts)
                ((k, optarg) ∷ old)
                (option_settings opts)
                (parse_opt opts ((k, optarg) ∷ old)))
        → Becomes
            (is_option o && good_options opts)
            old
            (option_setting o optarg ++ option_settings opts)
            (elim o [ none ↦ none | some k ↦ parse_opt opts ((k, optarg) ∷ old) ])
    by_key none rest = refl
    by_key (some k) rest =
        Becomes-cons (good_options opts) k optarg old (option_settings opts)
          (parse_opt opts ((k, optarg) ∷ old)) (rest k)

-- The lines behind one, given what that one makes.
lines_from : List Bytes → Option Config → Option Config
lines_from lines o = elim o [ none ↦ none | some more ↦ read_lines lines more ]

read_words-Becomes :
    (ws : List Bytes) (lines : List Bytes) (old : Config)
    → ((more : Config)
        → Becomes (good_lines lines) more (file_settings lines) (read_lines lines more))
    → Becomes
        (is_setting ws && good_lines lines)
        old
        (setting_of ws ++ file_settings lines)
        (lines_from lines (set_words ws old))
unfolding set_words lines_from
read_words-Becomes [] lines old rest = refl
read_words-Becomes (k ∷ []) lines old rest = refl
read_words-Becomes (k ∷ v ∷ []) lines old rest =
    Becomes-cons (good_lines lines) k v old (file_settings lines) (read_lines lines ((k, v) ∷ old))
      (rest ((k, v) ∷ old))
read_words-Becomes (k ∷ v ∷ w ∷ ws) lines old rest = refl

read_line-Becomes :
    (nil : Bool) (ws : List Bytes) (lines : List Bytes) (old : Config)
    → ((more : Config)
        → Becomes (good_lines lines) more (file_settings lines) (read_lines lines more))
    → Becomes
        ((nil || is_setting ws) && good_lines lines)
        old
        ((if nil then [] else setting_of ws) ++ file_settings lines)
        (lines_from lines (if nil then some old else set_words ws old))
unfolding lines_from
read_line-Becomes true ws lines old rest = rest old
read_line-Becomes false ws lines old rest = read_words-Becomes ws lines old rest

read_lines-Becomes :
    (lines : List Bytes) (old : Config)
    → Becomes (good_lines lines) old (file_settings lines) (read_lines lines old)
unfolding read_lines read_line good_lines file_settings last_for lines_from
read_lines-Becomes [] old = (old, refl, λ k. refl)
read_lines-Becomes (line ∷ lines) old =
    read_line-Becomes (is_nil line) (words line) lines old (λ more. read_lines-Becomes lines more)

Becomes-then :
    (good good' : Bool) (old first second : Config) (o : Option Config)
    (next : Config → Option Config)
    → Becomes good old first o
    → ((config : Config) → Becomes good' config second (next config))
    → Becomes (good && good') old (first ++ second) (elim o [ none ↦ none | some c ↦ next c ])
Becomes-then false good' old first second o next h step = rw h refl
Becomes-then true false old first second o next (config, e, holds) step = rw e (step config)
Becomes-then true true old first second o next (config, e, holds) step =
    let (last, f, holds') = step config in
    rw e (
      last,
      f,
      λ k.
          holds' k
          ∙ ap (or_else (last_for k second)) (holds k)
          ∙ sym (or_else_assoc (last_for k second) (last_for k first) (find_key k old))
          ∙ ap (λ x. or_else x (find_key k old)) (sym (last_for-append k first second)),
    )

-- The lines of a file.
abbrev pub lines_of : Bytes → List Bytes
lines_of conf_file = split_str conf_file (codes "\n") false

-- A configuration is had exactly where each line of the file is empty or two words and each option is known.
-- Then a key has the value of the last option for it, or else of the last line for it, and no value
-- where there is neither.
pub configuration-Becomes :
    (conf_file : Bytes) (opts : List (ℕ × Bytes))
    → Becomes
        (good_lines (lines_of conf_file) && good_options opts)
        []
        (file_settings (lines_of conf_file) ++ option_settings opts)
        (configuration conf_file opts)
unfolding configuration
configuration-Becomes conf_file opts =
    Becomes-then (good_lines (lines_of conf_file)) (good_options opts) []
      (file_settings (lines_of conf_file)) (option_settings opts)
      (read_lines (lines_of conf_file) []) (parse_opt opts)
      (read_lines-Becomes (lines_of conf_file) []) (λ config. parse_opt-Becomes opts config)
