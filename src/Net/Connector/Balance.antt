-- ===== src/Net/Connector/Balance.antt =====
-- Where the sockets of net/Connector.cc go.
use slack.Base.{
  ℕ, ◌+◌, ◌-◌, ◌≤◌, ◌<◌, ◌==◌, ap, sym, ◌∙◌, Safe-bind, ◌≡◌, ◌≢◌, List, [], ◌∷◌, ◌++◌, Bool, true,
  false, Option, some, none, if◌then◌else◌, arith, refl, Safe, Safe-some, assert, Bool-cases, inl,
  inr,
}
use slack.Net.Channel.{is_none_event, Channel, disable_all, remove, enable_writing}
use slack.Net.Channel
use slack.Net.Connector.{
  Connector, ConnectState, idle, connecting, connected, ConnectEffect, opened, closed, handed_over,
  updated, removed, reset_queued, start_after, Answer, under_way, try_again, give_up, retry,
  begin_connecting, try_connect, start_in_loop, start, restart, remove_and_reset_channel, stop_in,
  stop_in_loop, established, write_in, handle_write, error_in, handle_error, is_idle, effect,
  is_none, new_connector, reset_channel, init_retry_delay_ms,
}

-- One occurrence of descriptor `s`, where `fd` is that one.
unfoldable pub one : ℕ → ℕ → ℕ
one fd s = if fd == s then 1 else 0

-- How often descriptor `s` was opened, and how often closed or handed over.
abbrev pub opens : ℕ → List ConnectEffect → ℕ
opens s [] = 0
opens s (opened fd ∷ es) = one fd s + opens s es
opens s (closed fd ∷ es) = opens s es
opens s (handed_over fd ∷ es) = opens s es
opens s (updated c ∷ es) = opens s es
opens s (removed c ∷ es) = opens s es
opens s (reset_queued ∷ es) = opens s es
opens s (start_after ms ∷ es) = opens s es

abbrev pub releases : ℕ → List ConnectEffect → ℕ
releases s [] = 0
releases s (opened fd ∷ es) = releases s es
releases s (closed fd ∷ es) = one fd s + releases s es
releases s (handed_over fd ∷ es) = one fd s + releases s es
releases s (updated c ∷ es) = releases s es
releases s (removed c ∷ es) = releases s es
releases s (reset_queued ∷ es) = releases s es
releases s (start_after ms ∷ es) = releases s es

opens-append : (s : ℕ) (xs ys : List ConnectEffect) → opens s (xs ++ ys) ≡ opens s xs + opens s ys
opens-append s [] ys = omega arith
opens-append s (opened fd ∷ xs) ys = omega (arith, opens-append s xs ys)
opens-append s (closed fd ∷ xs) ys = opens-append s xs ys
opens-append s (handed_over fd ∷ xs) ys = opens-append s xs ys
opens-append s (updated c ∷ xs) ys = opens-append s xs ys
opens-append s (removed c ∷ xs) ys = opens-append s xs ys
opens-append s (reset_queued ∷ xs) ys = opens-append s xs ys
opens-append s (start_after ms ∷ xs) ys = opens-append s xs ys

releases-append :
    (s : ℕ) (xs ys : List ConnectEffect) → releases s (xs ++ ys) ≡ releases s xs + releases s ys
releases-append s [] ys = omega arith
releases-append s (opened fd ∷ xs) ys = releases-append s xs ys
releases-append s (closed fd ∷ xs) ys = omega (arith, releases-append s xs ys)
releases-append s (handed_over fd ∷ xs) ys = omega (arith, releases-append s xs ys)
releases-append s (updated c ∷ xs) ys = releases-append s xs ys
releases-append s (removed c ∷ xs) ys = releases-append s xs ys
releases-append s (reset_queued ∷ xs) ys = releases-append s xs ys
releases-append s (start_after ms ∷ xs) ys = releases-append s xs ys

abbrev holding : Option Channel → ℕ → ℕ
holding none s = 0
holding (some ch) s = one ch.fd s

-- The socket of an attempt that is under way.
abbrev pub held : ConnectState → Option Channel → ℕ → ℕ
held idle ch s = 0
held connecting ch s = holding ch s
held connected ch s = 0

-- Of each descriptor `s`, `extra s` more were opened.
abbrev Owes : (ℕ → ℕ) → Connector → Type 0
Owes extra c = (s : ℕ) → opens s c.effects ≡ releases s c.effects + extra s

-- A channel that is there while no attempt is under way is about to be reset.
abbrev AtMostOne : Option Channel → ℕ → Type 0
AtMostOne ch resets = (resets ≤ 1) × (is_none ch ≡ true → resets ≡ 0)

abbrev Rests : Connector → Type 0
Rests c = AtMostOne c.channel c.resets

abbrev ResetsFit : ConnectState → Option Channel → ℕ → Type 0
ResetsFit idle ch resets = AtMostOne ch resets
ResetsFit connecting ch resets = resets ≡ 0
ResetsFit connected ch resets = AtMostOne ch resets

abbrev IsBalanced : Connector → Type 0
IsBalanced c = Owes (held c.state c.channel) c × ResetsFit c.state c.channel c.resets

-- One more effect.
effect-Owes :
    (c : Connector) (e : ConnectEffect) (k j : ℕ → ℕ)
    → Owes k c
    → ((s : ℕ) → opens s (e ∷ []) + k s ≡ releases s (e ∷ []) + j s)
    → Owes j (effect c e)
effect-Owes c e k j h f s =
    omega (arith, h s, f s, opens-append s c.effects (e ∷ []), releases-append s c.effects (e ∷ []))

-- An effect that opens and releases nothing, or releases the socket that is owed.
same : (k : ℕ → ℕ) (s : ℕ) → 0 + k s ≡ 0 + k s
same k s = refl

gives : (fd s : ℕ) → 0 + one fd s ≡ (one fd s + 0) + 0
gives fd s = omega arith

takes : (fd s : ℕ) → (one fd s + 0) + 0 ≡ 0 + one fd s
takes fd s = omega arith

retry-IsBalanced : (c : Connector) (fd : ℕ) → Owes (one fd) c → Rests c → IsBalanced (retry c fd)
unfolding retry
retry-IsBalanced c fd h r =
    let shut = effect-Owes c (closed fd) (one fd) (λ s. 0) h (gives fd) in
    elim (Bool-cases c.connect) [
      | inl e ↦ rw e (
        effect-Owes (effect (record c { state = idle }) (closed fd)) (start_after c.retry_delay_ms)
            (λ s. 0) (λ s. 0) shut (same (λ s. 0)),
        r,
      )
      | inr e ↦ rw e (shut, r)
    ]

established-IsBalanced :
    (c : Connector) (fd : ℕ) → Owes (one fd) c → Rests c → IsBalanced (established c fd)
unfolding established
established-IsBalanced c fd h r = elim (Bool-cases c.connect) [
  | inl e ↦ rw e (effect-Owes c (handed_over fd) (one fd) (λ s. 0) h (gives fd), r)
  | inr e ↦ rw e (effect-Owes c (closed fd) (one fd) (λ s. 0) h (gives fd), r)
]

-- What `removeAndResetChannel` answers is the socket of the attempt.
abbrev Taken : ℕ × Connector → Type 0
Taken r = Owes (one r.0) r.1 × Rests r.1

itself : {A : Type 0} (o : Option A) → Safe o (λ a. o ≡ some a)
itself none = tt
itself (some a) = refl

removed-fd : (ch : Channel) → Safe (remove (disable_all ch)) (λ gone. gone.fd ≡ ch.fd)
unfolding remove disable_all
removed-fd ch = refl

removed-Taken :
    (c : Connector)
    → Owes (holding c.channel) c
    → c.resets ≡ 0
    → Safe (remove_and_reset_channel c) Taken
unfolding remove_and_reset_channel
removed-Taken c h z = Safe-bind c.channel _ _ _ (itself c.channel) λ channel there.
    Safe-bind (remove (disable_all channel)) _ _ _ (removed-fd channel) λ gone e.
      let with_gone : Connector = record c { channel = some gone; resets = c.resets + 1 } in
      let owed : Owes (one gone.fd) with_gone = λ s.
        h s
        ∙ ap (λ o. releases s c.effects + holding o s) there
        ∙ ap (λ fd. releases s c.effects + one fd s) (sym e) in
      let one_more =
        effect-Owes with_gone (updated (disable_all channel)) (one gone.fd) (one gone.fd) owed
          (same (one gone.fd)) in
      let two_more =
        effect-Owes (effect with_gone (updated (disable_all channel))) (removed gone) (one gone.fd)
          (one gone.fd) one_more (same (one gone.fd)) in
      (
        effect-Owes (effect (effect with_gone (updated (disable_all channel))) (removed gone))
            reset_queued (one gone.fd) (one gone.fd) two_more (same (one gone.fd)),
        (omega (arith, z), λ n. absurd (cc)),
      )

attempt-Owes : (c : Connector) → c.state ≡ connecting → IsBalanced c → Owes (holding c.channel) c
attempt-Owes c e h = rw e at h.0

attempt-resets : (c : Connector) → c.state ≡ connecting → IsBalanced c → c.resets ≡ 0
attempt-resets c e h = rw e at h.1

idle-Owes : (c : Connector) → c.state ≡ idle → IsBalanced c → Owes (λ s. 0) c
idle-Owes c e h = rw e at h.0

idle-Rests : (c : Connector) → c.state ≡ idle → IsBalanced c → Rests c
idle-Rests c e h = rw e at h.1

-- What becomes of a socket that is writable.
outcome :
    (failed self : Bool) (c : Connector) (fd : ℕ)
    → Taken (fd, c)
    → IsBalanced (if failed then retry c fd else if self then retry c fd else established c fd)
outcome true self c fd (h, r) = retry-IsBalanced c fd h r
outcome false true c fd (h, r) = retry-IsBalanced c fd h r
outcome false false c fd (h, r) = established-IsBalanced c fd h r

stop_in-IsBalanced :
    (s : ConnectState) (c : Connector) → c.state ≡ s → IsBalanced c → Safe (stop_in s c) IsBalanced
unfolding stop_in
stop_in-IsBalanced idle c e h = h
stop_in-IsBalanced connected c e h = h
stop_in-IsBalanced connecting c e h =
    Safe-bind (remove_and_reset_channel (record c { state = idle })) Taken _ _
      (removed-Taken (record c { state = idle }) (attempt-Owes c e h) (attempt-resets c e h))
      λ r k. retry-IsBalanced r.1 r.0 k.0 k.1

write_in-IsBalanced :
    (s : ConnectState) (c : Connector) (failed self : Bool)
    → c.state ≡ s
    → IsBalanced c
    → Safe (write_in s c failed self) IsBalanced
unfolding write_in
write_in-IsBalanced idle c failed self e h = h
write_in-IsBalanced connected c failed self e h = tt
write_in-IsBalanced connecting c failed self e h =
    Safe-bind (remove_and_reset_channel c) Taken _ _
      (removed-Taken c (attempt-Owes c e h) (attempt-resets c e h))
      λ r k. outcome failed self r.1 r.0 k

error_in-IsBalanced :
    (s : ConnectState) (c : Connector) → c.state ≡ s → IsBalanced c → Safe (error_in s c) IsBalanced
unfolding error_in
error_in-IsBalanced idle c e h = h
error_in-IsBalanced connected c e h = h
error_in-IsBalanced connecting c e h =
    Safe-bind (remove_and_reset_channel c) Taken _ _
      (removed-Taken c (attempt-Owes c e h) (attempt-resets c e h))
      λ r k. retry-IsBalanced r.1 r.0 k.0 k.1

asserted : (b : Bool) → Safe (assert b) (λ u. b ≡ true)
asserted true = refl
asserted false = tt

begin_connecting-IsBalanced :
    (c : Connector) (fd : ℕ) → Owes (one fd) c → Rests c → Safe (begin_connecting c fd) IsBalanced
unfolding begin_connecting enable_writing Channel.make
begin_connecting-IsBalanced c fd h r =
    let channel =
      enable_writing (record (Channel.make fd) { write_callback = true; error_callback = true }) in
    Safe-bind (assert (is_none c.channel)) _ _ _ (asserted (is_none c.channel)) λ u n. (
      effect-Owes (record c { state = connecting; channel = some channel }) (updated channel)
          (one fd) (one fd) h (same (one fd)),
      r.1 n,
    )

try_connect-IsBalanced :
    (c : Connector) (fd : ℕ) (a : Answer)
    → c.state ≡ idle
    → IsBalanced c
    → Safe (try_connect c fd a) IsBalanced
unfolding try_connect
try_connect-IsBalanced c fd a e h =
    let opened_one = effect-Owes c (opened fd) (λ s. 0) (one fd) (idle-Owes c e h) (takes fd) in
    let r = idle-Rests c e h in
    by_answer a (begin_connecting-IsBalanced (effect c (opened fd)) fd opened_one r)
      (retry-IsBalanced (effect c (opened fd)) fd opened_one r)
      (rw e
        (effect-Owes (effect c (opened fd)) (closed fd) (one fd) (λ s. 0) opened_one (gives fd), r))
  where
    by_answer :
        (a : Answer)
        → Safe (begin_connecting (effect c (opened fd)) fd) IsBalanced
        → IsBalanced (retry (effect c (opened fd)) fd)
        → IsBalanced (effect (effect c (opened fd)) (closed fd))
        → Safe (try_connect c fd a) IsBalanced
    by_answer under_way x y z = x
    by_answer try_again x y z = y
    by_answer give_up x y z = z

is_idle_eq : (s : ConnectState) → is_idle s ≡ true → s ≡ idle
unfolding is_idle
is_idle_eq idle e = refl
is_idle_eq connecting e = ground arith
is_idle_eq connected e = ground arith

either :
    (b : Bool) (o o' : Option Connector)
    → Safe o IsBalanced
    → Safe o' IsBalanced
    → Safe (if b then o else o') IsBalanced
either true o o' h k = h
either false o o' h k = k

start_in_loop-IsBalanced :
    (c : Connector) (fd : ℕ) (a : Answer) → IsBalanced c → Safe (start_in_loop c fd a) IsBalanced
unfolding start_in_loop
start_in_loop-IsBalanced c fd a h = elim (Bool-cases (is_idle c.state)) [
  | inl i ↦ rw i (
      either c.connect (try_connect c fd a) (some c)
        (try_connect-IsBalanced c fd a (is_idle_eq c.state i) h) h)
  | inr i ↦ rw i tt
]

-- One thing that happens to a connector in its loop. `restart` is for one that has no attempt under way.
pub data Step (c : Connector) : Connector → Type 0 where
  starts : {d : Connector} (fd : ℕ) (a : Answer) → start c fd a ≡ some d → Step c d
  retries_now : {d : Connector} (fd : ℕ) (a : Answer) → start_in_loop c fd a ≡ some d → Step c d
  restarts :
      {d : Connector} (fd : ℕ) (a : Answer)
      → c.state ≢ connecting
      → restart c fd a ≡ some d
      → Step c d
  disallows : Step c (record c { connect = false })
  stops : {d : Connector} → stop_in_loop c ≡ some d → Step c d
  resets : 0 < c.resets → Step c (reset_channel c)
  writes : {d : Connector} (failed self : Bool) → handle_write c failed self ≡ some d → Step c d
  errs : {d : Connector} → handle_error c ≡ some d → Step c d

pub data Steps (c : Connector) : Connector → Type 0 where
  done : Steps c c
  more : {d e : Connector} → Steps c d → Step d e → Steps c e

settled : (c : Connector) → c.state ≢ connecting → IsBalanced c → Owes (λ s. 0) c × Rests c
settled c n h = by_state c.state refl h
  where
    by_state :
        (s : ConnectState)
        → c.state ≡ s
        → Owes (held s c.channel) c × ResetsFit s c.channel c.resets
        → Owes (λ s. 0) c × Rests c
    by_state idle e k = k
    by_state connected e k = k
    by_state connecting e k = absurd (n e)

reset-IsBalanced : (c : Connector) → 0 < c.resets → IsBalanced c → IsBalanced (reset_channel c)
unfolding reset_channel
reset-IsBalanced c p h = by_state c.state h
  where
    none_left : Rests c → c.resets - 1 ≡ 0
    none_left r = omega (arith, r.0)

    by_state :
        (s : ConnectState)
        → Owes (held s c.channel) c × ResetsFit s c.channel c.resets
        → Owes (held s none) (reset_channel c) × ResetsFit s none (c.resets - 1)
    by_state idle (o, r) = (o, (omega (arith, r.0), λ n. none_left r))
    by_state connected (o, r) = (o, (omega (arith, r.0), λ n. none_left r))
    by_state connecting (o, r) = absurd (omega (arith, p, r))

Step-IsBalanced : (c d : Connector) → Step c d → IsBalanced c → IsBalanced d
unfolding start restart stop_in_loop handle_write handle_error
Step-IsBalanced c d (starts fd a e) h =
    Safe-some IsBalanced (start_in_loop-IsBalanced (record c { connect = true }) fd a h) e
Step-IsBalanced c d (retries_now fd a e) h =
    Safe-some IsBalanced (start_in_loop-IsBalanced c fd a h) e
Step-IsBalanced c d (restarts fd a n e) h =
    Safe-some IsBalanced
      (start_in_loop-IsBalanced
        (record c { state = idle; retry_delay_ms = init_retry_delay_ms; connect = true }) fd a
        (settled c n h))
      e
Step-IsBalanced c d disallows h = h
Step-IsBalanced c d (stops e) h = Safe-some IsBalanced (stop_in-IsBalanced c.state c refl h) e
Step-IsBalanced c d (resets p) h = reset-IsBalanced c p h
Step-IsBalanced c d (writes failed self e) h =
    Safe-some IsBalanced (write_in-IsBalanced c.state c failed self refl h) e
Step-IsBalanced c d (errs e) h = Safe-some IsBalanced (error_in-IsBalanced c.state c refl h) e

-- Whatever happens to a new connector, in whatever order and with whatever answers of the system calls:
-- each descriptor was opened as often as it was closed or handed over, and once more exactly if it is the socket
-- of an attempt that is under way. Only `restart` is not called while one is.
pub Steps-IsBalanced :
    (d : Connector) (fd : ℕ)
    → Steps new_connector d
    → opens fd d.effects ≡ releases fd d.effects + held d.state d.channel fd
Steps-IsBalanced d fd st = (all d st).0 fd
  where
    all : (d : Connector) → Steps new_connector d → IsBalanced d
    all d done = (λ s. refl, (omega arith, λ n. refl))
    all d (more {d = b} s t) = Step-IsBalanced b d t (all b s)
