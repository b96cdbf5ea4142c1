-- ===== src/Net/TimerQueue/Restart.antt =====
-- `reset` of net/TimerQueue.cc: timers that repeat are restarted, the others deleted, and the timerfd is set.
use slack.Base.{
  ℕ, ◌<◌, ◌≡◌, List, [], ◌∷◌, true, false, not, ◌&&◌, some, if◌then◌else◌, ltb, arith, refl, sym,
  ◌∙◌, Bool-cases, inl, inr, Returns, Returns->>=, Returns-mono, subst,
}
use slack.Net.TimerQueue.{
  Timer, TimerQueue, KeySet, find_at, reset_timerfd, reset_one, reset_each, arm, reset, restart,
  restarted,
}
use slack.Net.TimerQueue.Timers.{entry, entries, insert_timer}
use slack.Net.TimerQueue.Represents.{Represents, held_some, inserted-Represents, insert_lem}
use slack.Net.TimerQueue.Operations.{deleted-Represents, restart-Represents}
use slack.Net.TimerQueue.Order.{is_armed, alarm-in_time}
use slack.Net.TimerQueue.Handle.{Ordered, armed-Represents}
use slack.Net.TimerQueue.Commands.{insert_timer-Ordered, with_fields}

-- A timer that repeats and is not cancelled waits again.
abbrev pub kept_in : ℕ → KeySet → Timer → List Timer → List Timer
kept_in now k t ts =
    if t.repeat && not (k.has t.address t.sequence) then insert_timer (restarted t now) ts else ts

-- The timers that wait after a round, from those that were held and those that wait.
abbrev pub restarts : ℕ → KeySet → List Timer → List Timer → List Timer
restarts now k [] ts = ts
restarts now k (t ∷ held) ts = restarts now k held (kept_in now k t ts)

reset_one_lem :
    {q : TimerQueue} {ts held : List Timer} {t : Timer} (now : ℕ)
    → Represents q ts (t ∷ held)
    → Returns (reset_one q (entry t) now) (λ q'.
      Represents q' (kept_in now q.canceling_timers t ts) held
      × (q'.canceling_timers ≡ q.canceling_timers)
      × (q'.ran ≡ q.ran))
unfolding reset_one restart
reset_one_lem {q} {ts} {held} {t} now r =
    rw (held_some r)
      (elim (Bool-cases (t.repeat && not (q.canceling_timers.has t.address t.sequence))) [
        | inl e ↦
            let r' = restart-Represents now r in
            rw (e, insert_lem r') (inserted-Represents r', refl, refl)
        | inr e ↦ rw e (deleted-Represents r, refl, refl)
      ])

reset_each_lem :
    (held : List Timer) (q : TimerQueue) (ts : List Timer) (now : ℕ)
    → Represents q ts held
    → Returns
        (reset_each q (entries held) now)
        (λ q'. Represents q' (restarts now q.canceling_timers held ts) [] × (q'.ran ≡ q.ran))
unfolding reset_each
reset_each_lem [] q ts now r = (r, refl)
reset_each_lem (t ∷ held) q ts now r =
    Returns->>= (reset_one q (entry t) now) _ _ _ (reset_one_lem now r) (λ p (r', k, n).
      Returns-mono (reset_each p (entries held) now) _ _
        (reset_each_lem held p (kept_in now q.canceling_timers t ts) now r')
        (λ q' (s, m). (
          subst (λ c. Represents q' (restarts now c held (kept_in now q.canceling_timers t ts)) [])
              k s,
          m ∙ n,
        )))

kept_in-Ordered :
    (now : ℕ) (k : KeySet) (t : Timer) (ts : List Timer)
    → 0 < now
    → Ordered ts
    → Ordered (kept_in now k t ts)
kept_in-Ordered now k t ts h o = elim (Bool-cases (t.repeat && not (k.has t.address t.sequence))) [
  | inl e ↦ rw e (insert_timer-Ordered (restarted t now) ts (ground arith) o)
  | inr e ↦ rw e o
]

restarts-Ordered :
    (now : ℕ) (k : KeySet) (held ts : List Timer)
    → 0 < now
    → Ordered ts
    → Ordered (restarts now k held ts)
restarts-Ordered now k [] ts h o = o
restarts-Ordered now k (t ∷ held) ts h o =
    restarts-Ordered now k held (kept_in now k t ts) h (kept_in-Ordered now k t ts h o)

-- The timers of the queue are these, in order, and the timerfd goes off no later than the first of them is due, or than 100
-- microseconds after it was set.
pub record IsQueue (q : TimerQueue) (ts : List Timer) : Type 0 where
  pub represents : Represents q ts []
  pub ordered : Ordered ts
  pub armed_eq : is_armed (entries ts) q.armed ≡ true

reset_timerfd-IsQueue :
    (q : TimerQueue) (t : Timer) (ts : List Timer)
    → Represents q (t ∷ ts) []
    → Ordered (t ∷ ts)
    → IsQueue (reset_timerfd q t.expiration) (t ∷ ts)
reset_timerfd-IsQueue q t ts r o = record {
  represents = armed-Represents true t.expiration r;
  ordered = o;
  armed_eq = alarm-in_time t.expiration (q.clock q.settings);
}

arm_lem :
    (q : TimerQueue) (ts : List Timer)
    → Represents q ts []
    → Ordered ts
    → Returns (arm q (entries ts)) (λ q'. IsQueue q' ts × (q'.ran ≡ q.ran))
unfolding arm
arm_lem q [] r o = (record { represents = r; ordered = o; armed_eq = refl }, refl)
arm_lem q (t ∷ ts) r o =
    let first : find_at t.address q.heap ≡ some t = r.heap_eq t.address ∙ ground arith in
    let positive : ltb 0 t.expiration ≡ true = ground (arith, o.valid.0) in
    rw (first, positive) (reset_timerfd-IsQueue q t ts r o, refl)

reset_lem :
    (q : TimerQueue) (ts held : List Timer) (now : ℕ)
    → 0 < now
    → Represents q ts held
    → Ordered ts
    → Returns
        (reset q (entries held) now)
        (λ q'. IsQueue q' (restarts now q.canceling_timers held ts) × (q'.ran ≡ q.ran))
unfolding reset
reset_lem q ts held now h r o =
    Returns->>= (reset_each q (entries held) now) _ _ _ (reset_each_lem held q ts now r)
      (λ p (r', n).
        let all = restarts now q.canceling_timers held ts in
        subst (λ es. Returns (arm p es) (λ q'. IsQueue q' all × (q'.ran ≡ q.ran)))
          (sym r'.timers_eq)
          (Returns-mono (arm p (entries all)) _ _
            (arm_lem p all r' (restarts-Ordered now q.canceling_timers held ts h o))
            (λ p' (w, m). (w, m ∙ n))))

-- The end of a round.
pub end_lem :
    {q : TimerQueue} {ts held : List Timer} (now : ℕ)
    → 0 < now
    → Represents q ts held
    → Ordered ts
    → Returns
        (reset (record q { calling_expired = false }) (entries held) now)
        (λ q'. IsQueue q' (restarts now q.canceling_timers held ts) × (q'.ran ≡ q.ran))
end_lem {q} {ts} {held} now h r o =
    reset_lem (record q { calling_expired = false }) ts held now h
      (with_fields q q.ran q.armed false q.canceling_timers r) o
