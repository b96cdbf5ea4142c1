-- ===== src/Net/Buffer/Contents.antt =====
-- How the moves of net/Buffer.h change the range of bytes between the two indices.
use slack.Base.{
  ℕ, refl, take-append_length, drop-append_length, ◌+◌, ◌-◌, ◌≤◌, ◌≡◌, ◌∙◌, List, ◌++◌, ap, sym,
  length, take, drop, replicate, overwrite, arith, length-take, length-drop, take-append,
  drop-append, take-append_add, drop-drop, drop-take, take-take, overwrite_lem,
}
use slack.Net.Buffer.{slice, resize}
use slack.Net.Buffer.Valid.{length-slice}

module _ (xs : List ℕ) (i j : ℕ) where
  -- Only what lies below the upper end counts.
  pub slice-eq-drop-take : slice xs i j ≡ drop i (take j xs)
  slice-eq-drop-take = sym (drop-take i j xs)

  pub slice-append : (ys : List ℕ) → i ≤ j → j ≤ length xs → slice (xs ++ ys) i j ≡ slice xs i j
  slice-append ys h k =
      ap (take (j - i)) (drop-append i xs ys (omega arith))
      ∙ take-append (j - i) (drop i xs) ys (omega (arith, length-drop i xs))

  pub slice-resize :
      (n : ℕ) → i ≤ j → j ≤ length xs → j ≤ n → slice (resize xs n) i j ≡ slice xs i j
  slice-resize n h k l =
      ap (take (j - i)) (drop-take i n (xs ++ replicate (n - length xs) 0))
      ∙ take-take (j - i) (n - i) (drop i (xs ++ replicate (n - length xs) 0)) (omega arith)
      ∙ slice-append (replicate (n - length xs) 0) h k

  -- Bytes written at the upper end.
  pub slice-overwrite_end :
      (ys : List ℕ) (k : ℕ)
      → i ≤ j
      → j + length ys ≤ length xs
      → k ≡ j + length ys
      → slice (overwrite xs j ys) i k ≡ slice xs i j ++ ys
  slice-overwrite_end ys k h l e =
      ap (λ l. take (k - i) (drop i l)) (overwrite_lem xs j ys l)
      ∙ ap (take (k - i)) (
          drop-append i (take j xs) (ys ++ drop (j + length ys) xs)
            (omega (arith, length-take j xs))
          ∙ ap (λ l. l ++ (ys ++ drop (j + length ys) xs)) (drop-take i j xs))
      ∙ take-append_add (k - i) (length ys) (slice xs i j) (ys ++ drop (j + length ys) xs)
          (omega (arith, length-slice xs i j (omega arith)))
      ∙ ap (λ l. slice xs i j ++ l)
          (take-append_length (length ys) ys (drop (j + length ys) xs) refl)

  -- Bytes written below the lower end.
  pub slice-overwrite_start :
      (ys : List ℕ) (k : ℕ)
      → i ≤ j
      → j ≤ length xs
      → k + length ys ≡ i
      → slice (overwrite xs k ys) k j ≡ ys ++ slice xs i j
  slice-overwrite_start ys k h l e =
      ap (λ l. take (j - k) (drop k l)) (overwrite_lem xs k ys (omega arith))
      ∙ ap (take (j - k)) (
          drop-append_length k (take k xs) (ys ++ drop (k + length ys) xs)
            (omega (arith, length-take k xs)))
      ∙ take-append_add (j - k) (j - i) ys (drop (k + length ys) xs) (omega arith)
      ∙ ap (λ l. ys ++ take (j - i) (drop l xs)) e

  pub slice_later : (n k : ℕ) → k ≡ i + n → slice xs k j ≡ drop n (slice xs i j)
  slice_later n k e =
      let f : j - k ≡ j - i - n = omega arith in
      ap (λ l. take (j - k) (drop l xs)) e
      ∙ ap (λ l. take l (drop (i + n) xs)) f
      ∙ ap (take (j - i - n)) (sym (drop-drop n i xs))
      ∙ sym (drop-take n (j - i) (drop i xs))

  pub slice_sooner : (n k : ℕ) → k + n ≡ j → slice xs i k ≡ take (j - i - n) (slice xs i j)
  slice_sooner n k e =
      let f : k - i ≡ j - i - n = omega arith in
      ap (λ l. take l (drop i xs)) f ∙ sym (take-take (j - i - n) (j - i) (drop i xs) (omega arith))

-- Bytes written over the whole range.
pub slice-overwrite_self :
    (xs ys : List ℕ) (i k : ℕ)
    → i + length ys ≤ length xs
    → k ≡ i + length ys
    → slice (overwrite xs i ys) i k ≡ ys
slice-overwrite_self xs ys i k h e =
    let f : k - i ≡ length ys = omega arith in
    ap (λ l. take (k - i) (drop i l)) (overwrite_lem xs i ys h)
    ∙ ap (take (k - i)) (
        drop-append_length i (take i xs) (ys ++ drop (i + length ys) xs)
          (omega (arith, length-take i xs)))
    ∙ take-append_length (k - i) ys (drop (i + length ys) xs) f
