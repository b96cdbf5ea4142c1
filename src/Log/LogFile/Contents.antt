-- ===== src/Log/LogFile/Contents.antt =====
-- What the files of log/LogFile.cc hold, and how large they become.
use slack.Base.{
  ℕ, ◌+◌, ◌-◌, ◌≤◌, ◌<◌, ◌≡◌, List, [], ◌∷◌, ◌++◌, false, not, ltb, leb, ◌==◌, length, take, drop,
  take-append-drop, length-drop, arith, refl, sym, ap, ◌∙◌, append_assoc, append-nil, Bool-cases,
  inl, inr,
}
use slack.Log.LogFile.{
  File, write_rest, first_write, later_writes, append_file, LogFile, start_of_day, roll_file,
  check_time, append_unlocked, Call, append_all,
}

-- The bytes in all files, the oldest one first.
abbrev pub all_taken : List File → List ℕ
all_taken [] = []
all_taken (f ∷ fs) = all_taken fs ++ f.taken

abbrev pub all_bytes : LogFile → List ℕ
all_bytes l = all_taken (l.file ∷ l.older)

abbrev pub total : List ℕ → ℕ
total [] = 0
total (x ∷ xs) = x + total xs

-- Writes of which none takes nothing.
abbrev pub AllPositive : List ℕ → Type 0
AllPositive [] = Unit {0}
AllPositive (x ∷ xs) = (0 < x) × AllPositive xs

write_rest_lem : (xs cs : List ℕ) → AllPositive xs → length cs ≤ total xs → write_rest xs cs ≡ cs
unfolding write_rest
write_rest_lem [] [] p h = refl
write_rest_lem (x ∷ xs) [] p h = refl
write_rest_lem [] (c ∷ cs) p h = absurd (omega arith)
write_rest_lem (x ∷ xs) (c ∷ cs) p h =
    let some_taken : (x == 0) ≡ false = ground (arith, p.0) in
    let rest = write_rest_lem xs (drop x (c ∷ cs)) p.1 (omega (arith, length-drop x (c ∷ cs))) in
    rw (some_taken, rest) (take-append-drop x (c ∷ cs))

total_parts : (writes : List ℕ) → total writes ≡ first_write writes + total (later_writes writes)
total_parts [] = omega arith
total_parts (x ∷ xs) = refl

-- Writes that take enough, each of them something after the first one, take the whole line, though none need do so alone.
pub append_file_lem :
    (writes : List ℕ) (f : File) (line : List ℕ)
    → AllPositive (later_writes writes)
    → length line ≤ total writes
    → (append_file writes f line).taken ≡ f.taken ++ line
unfolding append_file
append_file_lem writes f line p h =
    let n = first_write writes in
    let enough = total_parts writes in
    ap (λ l. f.taken ++ l)
      (ap (λ l. take n line ++ l)
          (write_rest_lem (later_writes writes) (drop n line) p (omega (arith, length-drop n line)))
        ∙ take-append-drop n line)

roll_file-all_bytes : (l : LogFile) (now : ℕ) → all_bytes (roll_file l now) ≡ all_bytes l
unfolding roll_file
roll_file-all_bytes l now = elim (Bool-cases (ltb l.last_roll now)) [
  | inl e ↦ rw e (append-nil (all_taken l.older ++ l.file.taken))
  | inr e ↦ rw e refl
]

check_time-all_bytes :
    (l : LogFile) (now roll_now : ℕ) → all_bytes (check_time l now roll_now) ≡ all_bytes l
unfolding check_time
check_time-all_bytes l now roll_now =
    elim (Bool-cases (not (start_of_day now == l.start_of_period))) [
      | inl e ↦ rw e (roll_file-all_bytes l roll_now)
      | inr e ↦ elim (Bool-cases (ltb l.flush_interval (now - l.last_flush))) [
        | inl f ↦ rw (e, f) refl
        | inr f ↦ rw (e, f) refl
      ]
    ]

append_unlocked-all_bytes :
    (writes : List ℕ) (now roll_now : ℕ) (l : LogFile) (line : List ℕ)
    → AllPositive (later_writes writes)
    → length line ≤ total writes
    → all_bytes (append_unlocked writes now roll_now l line) ≡ all_bytes l ++ line
unfolding append_unlocked
append_unlocked-all_bytes writes now roll_now l line p h =
    let t = record l { file = append_file writes l.file line } in
    let more : all_bytes t ≡ all_bytes l ++ line =
      ap (λ b. all_taken l.older ++ b) (append_file_lem writes l.file line p h)
      ∙ sym (append_assoc (all_taken l.older) l.file.taken line) in
    elim (Bool-cases (ltb t.roll_size t.file.written_bytes)) [
      | inl e ↦ rw e (roll_file-all_bytes t roll_now ∙ more)
      | inr e ↦ elim (Bool-cases (leb t.check_every_n (t.count + 1))) [
        | inl f ↦ rw (e, f) (check_time-all_bytes (record t { count = 0 }) now roll_now ∙ more)
        | inr f ↦ rw (e, f) more
      ]
    ]

-- The writes of the calls take all lines.
abbrev pub AreComplete : List Call → Type 0
AreComplete [] = Unit {0}
AreComplete (c ∷ cs) =
    AllPositive (later_writes c.writes) × (length c.line ≤ total c.writes) × AreComplete cs

abbrev pub lines : List Call → List ℕ
lines [] = []
lines (c ∷ cs) = c.line ++ lines cs

-- Calls of `append` at any times, whose writes take the lines, if need be in several pieces: the files, one behind the other from the
-- oldest to the current one, hold what they held before and then the lines, whole and in order, wherever files are rolled.
pub append_all-all_bytes :
    (l : LogFile) (cs : List Call)
    → AreComplete cs
    → all_bytes (append_all l cs) ≡ all_bytes l ++ lines cs
unfolding append_all
append_all-all_bytes l [] h = sym (append-nil (all_bytes l))
append_all-all_bytes l (c ∷ cs) (p, h, k) =
    let l' = append_unlocked c.writes c.now c.roll_now l c.line in
    append_all-all_bytes l' cs k
    ∙ ap (λ b. b ++ lines cs) (append_unlocked-all_bytes c.writes c.now c.roll_now l c.line p h)
    ∙ append_assoc (all_bytes l) c.line (lines cs)
