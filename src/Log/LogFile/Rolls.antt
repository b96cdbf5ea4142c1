-- ===== src/Log/LogFile/Rolls.antt =====
-- When log/LogFile.cc starts another file.
use slack.Base.{
  ℕ, ◌+◌, ◌-◌, ◌≤◌, ◌<◌, ◌≡◌, List, [], ◌∷◌, not, ltb, leb, ◌==◌, length, arith, refl, Bool-cases,
  inl, inr, ◌⊎◌,
}
use slack.Log.LogFile.{
  File, append_file, LogFile, start_of_day, roll_file, new_log_file, check_time, append_unlocked,
  Call, append_all,
}

-- Files that were each made after all that follow it, the first of them before `now`.
abbrev pub IsDescending : ℕ → List File → Type 0
IsDescending now [] = Unit {0}
IsDescending now (f ∷ fs) = (f.created < now) × IsDescending f.created fs

-- The current file is the one of the last roll, and the others are older.
abbrev pub HasOrder : LogFile → Type 0
HasOrder l = (l.file.created ≡ l.last_roll) × IsDescending l.last_roll l.older

roll_file-HasOrder : (l : LogFile) (now : ℕ) → HasOrder l → HasOrder (roll_file l now)
unfolding roll_file
roll_file-HasOrder l now (c, d) = elim (Bool-cases (ltb l.last_roll now)) [
  | inl e ↦ rw e (refl, ((ground arith, rw c d)))
  | inr e ↦ rw e (c, d)
]

check_time-HasOrder :
    (l : LogFile) (now roll_now : ℕ) → HasOrder l → HasOrder (check_time l now roll_now)
unfolding check_time
check_time-HasOrder l now roll_now h =
    elim (Bool-cases (not (start_of_day now == l.start_of_period))) [
      | inl e ↦ rw e (roll_file-HasOrder l roll_now h)
      | inr e ↦ elim (Bool-cases (ltb l.flush_interval (now - l.last_flush))) [
        | inl f ↦ rw (e, f) h
        | inr f ↦ rw (e, f) h
      ]
    ]

append_unlocked-HasOrder :
    (writes : List ℕ) (now roll_now : ℕ) (l : LogFile) (line : List ℕ)
    → HasOrder l
    → HasOrder (append_unlocked writes now roll_now l line)
unfolding append_unlocked append_file
append_unlocked-HasOrder writes now roll_now l line h =
    let t = record l { file = append_file writes l.file line } in
    elim (Bool-cases (ltb t.roll_size t.file.written_bytes)) [
      | inl e ↦ rw e (roll_file-HasOrder t roll_now h)
      | inr e ↦ elim (Bool-cases (leb t.check_every_n (t.count + 1))) [
        | inl f ↦ rw (e, f) (check_time-HasOrder (record t { count = 0 }) now roll_now h)
        | inr f ↦ rw (e, f) h
      ]
    ]

append_all-HasOrder : (l : LogFile) (cs : List Call) → HasOrder l → HasOrder (append_all l cs)
unfolding append_all
append_all-HasOrder l [] h = h
append_all-HasOrder l (c ∷ cs) h =
    append_all-HasOrder (append_unlocked c.writes c.now c.roll_now l c.line) cs
      (append_unlocked-HasOrder c.writes c.now c.roll_now l c.line h)

-- Whatever is appended to a new log, and whatever the clock says meanwhile, each file is made in a later second than all
-- files before it, and the last one at the time of the last roll.
pub append_all-IsDescending :
    (roll_size flush_interval check_every_n now : ℕ) (cs : List Call)
    → (l : LogFile) → l ≡ append_all (new_log_file roll_size flush_interval check_every_n now) cs
    → (l.file.created ≡ l.last_roll) × IsDescending (l.last_roll + 1) (l.file ∷ l.older)
unfolding new_log_file
append_all-IsDescending r f n now cs l e =
    let (c, d) = append_all-HasOrder (new_log_file r f n now) cs (refl, tt) in
    rw e (c, ((omega arith, rw c d)))

-- After a line is appended, the current file counts no more bytes than the limit; or it has the line on top of what it counted before, and
-- the time that was read to roll it is no later second than that of the last roll before the call.
pub append_unlocked-written_bytes :
    (writes : List ℕ) (now roll_now : ℕ) (l : LogFile) (line : List ℕ)
    → let t = append_unlocked writes now roll_now l line in
      (t.file.written_bytes ≤ t.roll_size)
      ⊎ (roll_now ≤ l.last_roll) × (t.file.written_bytes ≡ l.file.written_bytes + length line)
unfolding append_unlocked append_file check_time roll_file
append_unlocked-written_bytes writes now roll_now l line = ground arith
