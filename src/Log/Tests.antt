-- ===== src/Log/Tests.antt =====
-- The theorems of log/LogStream.h and LogStream.cc at concrete inputs.
mod Files
mod Logging
use slack.Base.{
  ℕ, ◌≡◌, List, [], ◌∷◌, true, none, arith, refl, Returns, length-replicate, replicate, negsuc,
}
use slack.Std.Text.{codes}
use slack.Log.Convert.{convert, convert_hex}
use slack.Log.Convert.Digits.{read_text, read_text-convert, value-convert_hex, value, hex_digit}
use mathlib.Core.List.{reverse}
use slack.Log.FixedBuffer.{small_buffer, on_array, to_string, debug_string}
use slack.Log.LogStream.{Operand, truth, integer, pointer, real, char, c_string, string, put_all}
use slack.Log.LogStream.Refine.{extended_all, all_text, put_all-all_text, put_all_lem}

convert_lowest : convert (negsuc 2147483647) ≡ codes "-2147483648"
unfolding convert
convert_lowest = refl

convert_hex_mask : convert_hex 48879 ≡ codes "BEEF"
unfolding convert_hex
convert_hex_mask = refl

read_text-convert_example : read_text (convert (negsuc 2147483647)) ≡ negsuc 2147483647
read_text-convert_example = read_text-convert (negsuc 2147483647)

abbrev line : List Operand
line =
    string (codes "fd = ")
    ∷ integer (negsuc 0)
    ∷ c_string none
    ∷ pointer 48879
    ∷ real (codes "0.5")
    ∷ truth true
    ∷ char 10
    ∷ []

put_all_lem_example : Returns (put_all (on_array (replicate 4000 88)) line) (λ b.
    (to_string b ≡ extended_all small_buffer [] line)
    × Returns (debug_string b) (λ d. to_string d ≡ to_string b))
put_all_lem_example =
    put_all_lem (replicate 4000 88) line (length-replicate {A = ℕ} 4000 88)
      (tt, (omega arith, (tt, (omega arith, (omega arith, (tt, (tt, tt)))))))
