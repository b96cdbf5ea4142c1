-- ===== src/Log/Logging/Lines.antt =====
-- The lines that log/Logging.cc hands to its output.
use slack.Std.Text.{codes}
use slack.Base.{
  ℕ, ◌+◌, ◌/◌, ◌%◌, ◌≤◌, ◌<◌, ◌≡◌, List, [], ◌∷◌, ◌++◌, true, not, Option, some, none,
  if◌then◌else◌, ◌==◌, ltb, length, pos, arith, refl, sym, ap, ◌∙◌, append_assoc, Bool-cases, inl,
  inr, ◌⊎◌, subst, Returns, Returns->>=, Returns-mono, Returns-assert, Returns-then, Returns-else,
  Returns-bind,
}
use slack.Log.Convert.{convert}
use slack.Log.FixedBuffer.{on_array, to_string, small_buffer}
use slack.Log.LogStream.{Operand, string, c_string, put_all, fmt}
use slack.Log.LogStream.Refine.{AreOperands, all_text, text_of, put_all-all_text}
use slack.Log.Logging.{
  level_name, is_fatal, source_file, TimeCache, new_cache, Message, new_second, format_time,
  errno_operands, impl, func_operands, finish, log, log_all, known_length, micro_seconds_per_second,
}

all_text-append : (vs ws : List Operand) → all_text (vs ++ ws) ≡ all_text vs ++ all_text ws
all_text-append [] ws = refl
all_text-append (v ∷ vs) ws =
    ap (λ l. text_of v ++ l) (all_text-append vs ws)
    ∙ sym (append_assoc (text_of v) (all_text vs) (all_text ws))

AreOperands-append :
    (vs ws : List Operand) → AreOperands vs → AreOperands ws → AreOperands (vs ++ ws)
AreOperands-append [] ws h k = k
AreOperands-append (v ∷ vs) ws h k = (h.0, AreOperands-append vs ws h.1 k)

known : (text : List ℕ) (n : ℕ) → length text ≡ n → known_length text n ≡ some text
known text n e = let whole : (length text == n) ≡ true = ground (arith, e) in rw whole refl

fmt_short : (text : List ℕ) → length text < 32 → fmt text ≡ some text
unfolding fmt
fmt_short text h = let room : ltb (length text) 32 ≡ true = ground (arith, h) in rw room refl

-- What the code relies on in the parameters.
pub record AreTexts (local_time micros_text : ℕ → List ℕ) (tid : List ℕ) : Type 0 where
  pub time_length : (s : ℕ) → length (local_time s) ≡ 17
  pub micros_length : (u : ℕ) → u < 1000000 → length (micros_text u) ≡ 9
  pub tid_length : length tid ≡ 6

module _ (local_time micros_text strerror : ℕ → List ℕ) (tid : List ℕ) where
  abbrev pub errno_text : ℕ → List ℕ
  errno_text e =
      if not (e == 0)
      then strerror e ++ (codes " (errno=" ++ (convert (pos e) ++ codes ") "))
      else []

  abbrev pub func_text : Option (List ℕ) → List ℕ
  func_text none = []
  func_text (some f) = f ++ codes " "

  -- The line of a message: time, thread, level, error, function, message, and place.
  abbrev pub line_text : Message → List ℕ
  line_text m =
      local_time (m.micro_seconds / micro_seconds_per_second)
      ++ (micros_text (m.micro_seconds % micro_seconds_per_second)
          ++ (tid
              ++ (level_name m.level
                  ++ (codes " "
                      ++ (errno_text m.save_errno
                          ++ (func_text m.func
                              ++ (all_text m.operands
                                  ++ (codes " - "
                                      ++ (source_file m.file
                                          ++ (codes ":"
                                              ++ (convert (pos m.line) ++ codes "\n")))))))))))

  -- A message after the first second of the epoch, with room for its line.
  pub record IsMessage (m : Message) : Type 0 where
    pub late : 1000000 ≤ m.micro_seconds
    pub array_eq : length m.array ≡ small_buffer
    pub operands_ok : AreOperands m.operands
    pub line_small : m.line < 2147483648
    pub errno_small : m.save_errno < 2147483648
    pub fits : length (line_text m) + 32 ≤ small_buffer

  abbrev pub AreMessages : List Message → Type 0
  AreMessages [] = Unit {0}
  AreMessages (m ∷ ms) = IsMessage m × AreMessages ms

  -- The lines up to the first fatal message.
  abbrev pub lines_until_fatal : List Message → List (List ℕ)
  lines_until_fatal [] = []
  lines_until_fatal (m ∷ ms) =
      line_text m ∷ (let rest = lines_until_fatal ms in if is_fatal m.level then [] else rest)

  -- The cache is new, or it has the text of its second.
  abbrev IsCache : TimeCache → Type 0
  IsCache c = (c.last_second ≡ 0) ⊎ (c.time ≡ local_time c.last_second)

  module _ (h : AreTexts local_time micros_text tid) where
    new_second-IsCache :
        (c : TimeCache) (s : ℕ)
        → IsCache c
        → 0 < s
        → Returns
            (new_second local_time micros_text strerror tid c s)
            (λ d. (d.time ≡ local_time s) × IsCache d)
    unfolding new_second
    new_second-IsCache c s i p = elim (Bool-cases (not (s == c.last_second))) [
      | inl e ↦
          let whole : (length (local_time s) == 17) ≡ true = ground (arith, h.time_length s) in
          Returns-then _ _ _ e (Returns-assert _ _ whole (refl, inr refl))
      | inr e ↦
          let same_second : c.last_second ≡ s = ground (arith, e) in
          Returns-else _ _ _ e (elim i [
            | inl z ↦ absurd (omega (arith, z, same_second, p))
            | inr t ↦ (t ∙ ap local_time same_second, inr t)
          ])
    ]

    abbrev times : ℕ → List Operand
    times micro =
        string (local_time (micro / micro_seconds_per_second))
        ∷ string (micros_text (micro % micro_seconds_per_second))
        ∷ []

    format_time-times :
        (c : TimeCache) (micro : ℕ)
        → IsCache c
        → 1000000 ≤ micro
        → Returns
            (format_time local_time micros_text strerror tid c micro)
            (λ r. IsCache r.0 × (r.1 ≡ times micro))
    unfolding format_time
    format_time-times c micro i late =
        let us = micros_text (micro % micro_seconds_per_second) in
        let length_us : length us ≡ 9 =
          h.micros_length (micro % micro_seconds_per_second) (omega arith) in
        let nine : (length us == 9) ≡ true = ground (arith, length_us) in
        Returns->>=
          (new_second local_time micros_text strerror tid c (micro / micro_seconds_per_second)) _ _
          _ (new_second-IsCache c (micro / micro_seconds_per_second) i (omega arith))
          (λ d (e, j). Returns-bind _ _ (fmt_short us (omega (arith, length_us))) (
            Returns-assert _ _ nine (
              Returns-bind _ _
                (known d.time 17 (ap length e ∙ h.time_length (micro / micro_seconds_per_second)))
                (Returns-bind _ _ (known us 9 length_us)
                  (j, ap (λ t. string t ∷ string us ∷ []) e)))))

    abbrev head : Message → List Operand
    head m =
        times m.micro_seconds
        ++ (string tid
            ∷ string (level_name m.level)
            ∷ c_string (some (codes " "))
            ∷ errno_operands local_time micros_text strerror tid m.save_errno)

    impl-head :
        (c : TimeCache) (m : Message)
        → IsCache c
        → 1000000 ≤ m.micro_seconds
        → Returns (impl local_time micros_text strerror tid c m) (λ r. IsCache r.0 × (r.1 ≡ head m))
    unfolding impl
    impl-head c m i late =
        Returns->>= (format_time local_time micros_text strerror tid c m.micro_seconds) _ _ _
          (format_time-times c m.micro_seconds i late)
          (λ r (j, e). Returns-bind _ _ (known tid 6 h.tid_length) (
            Returns-bind _ _ (known (level_name m.level) (length (level_name m.level)) refl) (
              j,
              ap
                  (λ t.
                    t
                    ++ (string tid
                        ∷ string (level_name m.level)
                        ∷ c_string (some (codes " "))
                        ∷ errno_operands local_time micros_text strerror tid m.save_errno))
                  e,
            )))

    abbrev tail : Message → List Operand
    tail m = m.operands ++ finish local_time micros_text strerror tid m

    errno_operands-text :
        (e : ℕ) → all_text (errno_operands local_time micros_text strerror tid e) ≡ errno_text e
    errno_operands-text e = elim (Bool-cases (not (e == 0))) [
      | inl k ↦ rw k refl
      | inr k ↦ rw k refl
    ]

    func_operands-text :
        (f : Option (List ℕ))
        → all_text (func_operands local_time micros_text strerror tid f) ≡ func_text f
    func_operands-text none = refl
    func_operands-text (some f) = refl

    abbrev all_operands : Message → List Operand
    all_operands m = head m ++ (func_operands local_time micros_text strerror tid m.func ++ tail m)

    all_operands-text : (m : Message) → all_text (all_operands m) ≡ line_text m
    unfolding finish
    all_operands-text m =
        let errno = errno_operands local_time micros_text strerror tid m.save_errno in
        let func = func_operands local_time micros_text strerror tid m.func in
        let rest : all_text (errno ++ (func ++ tail m))
            ≡ errno_text m.save_errno
              ++ (func_text m.func
                  ++ (all_text m.operands
                      ++ all_text (finish local_time micros_text strerror tid m))) =
          rw
            (
              all_text-append errno (func ++ tail m),
              all_text-append func (tail m),
              all_text-append m.operands (finish local_time micros_text strerror tid m),
              errno_operands-text m.save_errno,
              func_operands-text m.func,
            )
            refl in
        ap
          (λ l.
            local_time (m.micro_seconds / micro_seconds_per_second)
            ++ (micros_text (m.micro_seconds % micro_seconds_per_second)
                ++ (tid ++ (level_name m.level ++ (codes " " ++ l)))))
          rest

    errno_operands-AreOperands :
        (e : ℕ)
        → e < 2147483648
        → AreOperands (errno_operands local_time micros_text strerror tid e)
    errno_operands-AreOperands e k = elim (Bool-cases (not (e == 0))) [
      | inl b ↦ rw b (tt, (tt, (omega arith, (tt, tt))))
      | inr b ↦ rw b tt
    ]

    func_operands-AreOperands :
        (f : Option (List ℕ)) → AreOperands (func_operands local_time micros_text strerror tid f)
    func_operands-AreOperands none = tt
    func_operands-AreOperands (some f) = (tt, (tt, tt))

    all_operands-AreOperands : (m : Message) → IsMessage m → AreOperands (all_operands m)
    unfolding finish
    all_operands-AreOperands m i =
        let errno = errno_operands local_time micros_text strerror tid m.save_errno in
        let func = func_operands local_time micros_text strerror tid m.func in
        (
          tt,
          (
            tt,
            (
              tt,
              (
                tt,
                (
                  tt,
                  AreOperands-append errno (func ++ tail m)
                      (errno_operands-AreOperands m.save_errno i.errno_small)
                      (AreOperands-append func (tail m) (func_operands-AreOperands m.func) (
                        AreOperands-append m.operands (finish local_time micros_text strerror tid m)
                          i.operands_ok (tt, (tt, (tt, (omega (arith, i.line_small), (tt, tt))))))),
                ),
              ),
            ),
          ),
        )

    log_lem :
        (c : TimeCache) (m : Message)
        → IsCache c
        → IsMessage m
        → Returns
            (log local_time micros_text strerror tid c m)
            (λ r. IsCache r.0 × (r.1 ≡ line_text m) × (r.2 ≡ is_fatal m.level))
    unfolding log
    log_lem c m i k =
        Returns->>= (impl local_time micros_text strerror tid c m) _ _ _ (impl-head c m i k.late)
          (λ r (j, e).
            let ops : r.1 ++ (func_operands local_time micros_text strerror tid m.func ++ tail m)
                ≡ all_operands m =
              ap (λ t. t ++ (func_operands local_time micros_text strerror tid m.func ++ tail m))
                e in
            Returns->>=
              (put_all (on_array m.array)
                (r.1 ++ (func_operands local_time micros_text strerror tid m.func ++ tail m)))
              (λ b. to_string b ≡ line_text m) _ _
              (subst
                (λ vs. Returns (put_all (on_array m.array) vs) (λ b. to_string b ≡ line_text m))
                (sym ops)
                (Returns-mono (put_all (on_array m.array) (all_operands m)) _ _
                  (put_all-all_text m.array (all_operands m) k.array_eq
                    (all_operands-AreOperands m k)
                    (subst (λ t. length t + 32 ≤ small_buffer) (sym (all_operands-text m)) k.fits))
                  (λ b t. t ∙ all_operands-text m)))
              (λ b t. (j, t, refl)))

    log_all-from :
        (c : TimeCache) (ms : List Message)
        → IsCache c
        → AreMessages ms
        → Returns
            (log_all local_time micros_text strerror tid c ms)
            (λ texts. texts ≡ lines_until_fatal ms)
    unfolding log_all
    log_all-from c [] i k = refl
    log_all-from c (m ∷ ms) i (k, ks) =
        Returns->>= (log local_time micros_text strerror tid c m) _ _ _ (log_lem c m i k)
          (λ r (j, t, f). elim (Bool-cases (is_fatal m.level)) [
            | inl e ↦ Returns-then _ _ _ (f ∙ e) (rw (t, e) refl)
            | inr e ↦ Returns-else _ _ _ (f ∙ e) (
                Returns->>= (log_all local_time micros_text strerror tid r.0 ms) _ _ _
                  (log_all-from r.0 ms j ks) (λ texts q. rw (t, q, e) refl))
          ])

  -- With texts of the lengths that the code asserts, a thread's messages after the epoch's first second, each with room for its line in the array: no
  -- assertion fails, and what is handed over is, up to the first fatal message, the line of each message with the text of its own time,
  -- though that text is made once for each second only.
  pub log_all_lem :
      (ms : List Message)
      → AreTexts local_time micros_text tid
      → AreMessages ms
      → Returns
          (log_all local_time micros_text strerror tid new_cache ms)
          (λ texts. texts ≡ lines_until_fatal ms)
  log_all_lem ms h k = log_all-from h new_cache ms (inl refl) k
