-- ===== src/Tests/Configured.antt =====
-- The reading of options at concrete inputs.
use redis_cerberus.Prelude.{
  ℕ, true, false, ◌&&◌, List, [], ◌∷◌, ◌++◌, Bytes, codes, some, none, ◌≡◌, refl,
}
use redis_cerberus.Prelude.Int.{pos}
use redis_cerberus.Configuration.{configuration, run}
use redis_cerberus.Configuration.Lookup.{
  Becomes, good_lines, good_options, file_settings, option_settings, lines_of,
  configuration-Becomes,
}

abbrev conf_file : Bytes
conf_file = codes "bind 8889\n\nthread 2\n"

abbrev opts : List (ℕ × Bytes)
opts = (b't', codes "4") ∷ []

configuration-Becomes_example :
    Becomes
      (good_lines (lines_of conf_file) && good_options opts)
      []
      (file_settings (lines_of conf_file) ++ option_settings opts)
      (configuration conf_file opts)
configuration-Becomes_example = configuration-Becomes conf_file opts

three_words : configuration (codes "bind 88 89\n") [] ≡ none
unfolding configuration
three_words = refl

run_small :
    run (pos 0) ((codes "thread", codes "4") ∷ (codes "bind", codes "8889") ∷ [])
    ≡ some (record {
      readonly = false;
      slave = none;
      writes = true;
      req_full_cov = true;
      slow_poll_ms = pos 50;
      bind_port = pos 8889;
      threads = pos 4;
      remotes = none;
    })
unfolding run
run_small = refl

no_threads : run (pos 0) ((codes "thread", codes "0") ∷ (codes "bind", codes "1") ∷ []) ≡ none
unfolding run
no_threads = refl
