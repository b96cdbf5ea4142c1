-- ===== src/Log/Tests/Logging.antt =====
-- The theorem on log/Logging.cc at three messages of a thread, the second of them fatal.
use slack.Base.{ℕ, ◌≡◌, List, [], ◌∷◌, some, arith, refl, Returns, replicate, length-replicate}
use slack.Std.Text.{codes}
use slack.Log.Convert.{convert}
use slack.Log.LogStream.{c_string}
use slack.Log.Logging.{LogLevel, info, fatal, source_file, level_name, Message, log_all, new_cache}
use slack.Log.Logging.Lines.{AreTexts, log_all_lem}

abbrev stamp : ℕ → List ℕ
stamp s = replicate 17 48

abbrev fraction : ℕ → List ℕ
fraction u = replicate 9 46

abbrev error_text : ℕ → List ℕ
error_text e = codes "Broken pipe"

abbrev tid : List ℕ
tid = codes "12345 "

abbrev message : LogLevel → ℕ → Message
message level save_errno = record {
  level = level;
  file = codes "/src/net/Buffer.cc";
  line = 120;
  func = some (codes "shrink");
  save_errno = save_errno;
  micro_seconds = 5000000;
  array = replicate 4000 88;
  operands = c_string (some (codes "done")) ∷ [];
}

texts_ok : AreTexts stamp fraction tid
texts_ok = record { time_length = λ s. refl; micros_length = λ u h. refl; tid_length = refl }

log_all_lem_example :
    Returns
      (log_all stamp fraction error_text tid new_cache
        (message info 0 ∷ message fatal 32 ∷ message info 0 ∷ []))
      (λ texts.
        texts
        ≡ codes "00000000000000000.........12345 INFO shrink done - Buffer.cc:120\n"
          ∷ codes
              "00000000000000000.........12345 FATAL Broken pipe (errno=32) shrink done - Buffer.cc:120\n"
          ∷ [])
unfolding convert source_file level_name
log_all_lem_example =
    log_all_lem stamp fraction error_text tid
      (message info 0 ∷ message fatal 32 ∷ message info 0 ∷ []) texts_ok
      (
        record {
          late = omega arith;
          array_eq = length-replicate {A = ℕ} 4000 88;
          operands_ok = (tt, tt);
          line_small = omega arith;
          errno_small = omega arith;
          fits = omega arith;
        },
        (
          record {
            late = omega arith;
            array_eq = length-replicate {A = ℕ} 4000 88;
            operands_ok = (tt, tt);
            line_small = omega arith;
            errno_small = omega arith;
            fits = omega arith;
          },
          (
            record {
              late = omega arith;
              array_eq = length-replicate {A = ℕ} 4000 88;
              operands_ok = (tt, tt);
              line_small = omega arith;
              errno_small = omega arith;
              fits = omega arith;
            },
            tt,
          ),
        ),
      )
