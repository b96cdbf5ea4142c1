-- ===== src/Net/TimerQueue/Cancel.antt =====
-- Timers that are cancelled while net/TimerQueue.cc calls the expired ones.
use slack.Base.{
  ℕ, ◌<◌, ◌≡◌, List, [], ◌∷◌, ◌++◌, Bool, true, false, not, ◌&&◌, ◌||◌, some, none, if◌then◌else◌,
  ◌==◌, arith, refl, sym, ap, ◌∙◌, Bool-cases, inl, inr, Returns, Returns->>=, Returns-mono,
}
use slack.Net.TimerQueue.{
  Timer, TimerQueue, KeySet, find_at, remove_at, same_key, Command, add, cancel, obey, obey_all,
  run_all, reset, get_expired, handle_read, restarted, cancel_in_loop, add_timer,
}
use slack.Net.TimerQueue.Timers.{
  entries, insert_timer, has_key, has_key-none, due, later, Distinct, at_same,
}
use slack.Net.TimerQueue.Represents.{Represents, or_else}
use slack.Net.TimerQueue.Expiry.{Found}
use slack.Net.TimerQueue.Handle.{Keeps, Ordered, obey-Represents, cancel_in_loop_lem}
use slack.Net.TimerQueue.Commands.{
  After, After-run, AreTimely, obey_all_lem, run_all_lem, with_fields, found_held, obeyed-Ordered,
  Keeps-trans, sequences,
}
use slack.Net.TimerQueue.Restart.{restarts, kept_in, IsQueue, end_lem}
use slack.Net.TimerQueue.Round.{begin_lem, at_calls}

-- The commands have a cancellation of this pointer and sequence.
abbrev pub cancels : ℕ → ℕ → List Command → Bool
cancels a s [] = false
cancels a s (add when interval repeat ∷ cs) = cancels a s cs
cancels a s (cancel b r ∷ cs) = same_key a s b r || cancels a s cs

find_at-insert_other :
    (a : ℕ) (t : Timer) (ts : List Timer)
    → (t.address == a) ≡ false
    → find_at a (insert_timer t ts) ≡ find_at a ts
find_at-insert_other a t [] e = ground arith
find_at-insert_other a t (u ∷ us) e = ground (arith, find_at-insert_other a t us)

kept_in-other :
    (a now : ℕ) (k : KeySet) (t : Timer) (ts : List Timer)
    → (t.address == a) ≡ false
    → find_at a (kept_in now k t ts) ≡ find_at a ts
kept_in-other a now k t ts e = elim (Bool-cases (t.repeat && not (k.has t.address t.sequence))) [
  | inl b ↦ rw b (find_at-insert_other a (restarted t now) ts e)
  | inr b ↦ rw b refl
]

kept_in-gone :
    (a now : ℕ) (k : KeySet) (u t : Timer) (ts : List Timer)
    → (u.address == a) ≡ true
    → u ≡ t
    → k.has a t.sequence ≡ true
    → find_at a (kept_in now k u ts) ≡ find_at a ts
kept_in-gone a now k u t ts e same c =
    let at : u.address ≡ a = ground arith in
    let gone : k.has u.address u.sequence ≡ true =
      ap (λ x. k.has x u.sequence) at ∙ ap (λ (x : Timer). k.has a x.sequence) same ∙ c in
    let out : (u.repeat && not (k.has u.address u.sequence)) ≡ false = ground arith in rw out refl

restarts-none :
    (a now : ℕ) (k : KeySet) (held ts : List Timer)
    → find_at a held ≡ none
    → find_at a ts ≡ none
    → find_at a (restarts now k held ts) ≡ none
restarts-none a now k [] ts h n = n
restarts-none a now k (t ∷ held) ts h n =
    restarts-none a now k held (kept_in now k t ts) (ground arith)
      (kept_in-other a now k t ts (ground arith) ∙ n)

-- A cancelled timer does not wait again.
restarts_gone :
    (a now : ℕ) (k : KeySet) (held ts : List Timer) (t : Timer)
    → Distinct held
    → find_at a held ≡ some t
    → k.has a t.sequence ≡ true
    → find_at a ts ≡ none
    → find_at a (restarts now k held ts) ≡ none
restarts_gone a now k [] ts t d h c n = cc
restarts_gone a now k (u ∷ held) ts t d h c n = elim (Bool-cases (u.address == a)) [
  | inl e ↦
      restarts-none a now k held (kept_in now k u ts) (at_same a u.address held e d.0)
        (kept_in-gone a now k u t ts e (ground arith) c ∙ n)
  | inr e ↦
      restarts_gone a now k held (kept_in now k u ts) t d.1 (ground arith) c
        (kept_in-other a now k u ts e ∙ n)
]

After-trans : {p q r : TimerQueue} {held : List Timer} → Keeps p q → After q held r → After p held r
After-trans k b = record {
  ts' = b.ts';
  represents = b.represents;
  ordered = b.ordered;
  keeps = Keeps-trans k b.keeps;
}

-- A timer that is held, and does not wait, is noted.
cancel_in_loop-held :
    (q : TimerQueue) (ts held : List Timer) (a b s : ℕ) (t : Timer)
    → Represents q ts held
    → q.calling_expired ≡ true
    → find_at a held ≡ some t
    → same_key a t.sequence b s ≡ true
    → Returns (cancel_in_loop q b s) (λ p.
      Represents p (if has_key b s ts then remove_at b ts else ts) held
      × Keeps q p
      × (p.canceling_timers.has a t.sequence ≡ true))
cancel_in_loop-held q ts held a b s t r l f e =
    let at : b ≡ a = ground arith in
    let seq : s ≡ t.sequence = ground arith in
    let absent : has_key b s ts ≡ false =
      has_key-none b s ts (ap (λ x. find_at x ts) at ∙ r.disjoint a t f) in
    Returns-mono (cancel_in_loop q b s) _ _ (cancel_in_loop_lem b s r) (λ p (r', k, m, y).
      let there : p.canceling_timers.has b s ≡ true = sym y ∙ ground arith in
      (
        r',
        k,
        ap (λ x. p.canceling_timers.has x t.sequence) (sym at)
            ∙ ap (p.canceling_timers.has b) (sym seq)
            ∙ there,
      ))

module _ (alloc : List Timer → ℕ) (alloc_free : (h : List Timer) → find_at (alloc h) h ≡ none) where
  obey_all-cancels :
      (cs : List Command) (q : TimerQueue) (ts held : List Timer) (a : ℕ) (t : Timer)
      → AreTimely cs
      → Represents q ts held
      → Ordered ts
      → q.calling_expired ≡ true
      → find_at a held ≡ some t
      → cancels a t.sequence cs ≡ true
      → Returns
          (obey_all alloc q cs)
          (λ q'. After q held q' × (q'.canceling_timers.has a t.sequence ≡ true))
  unfolding obey_all obey
  obey_all-cancels [] q ts held a t v r o l f c = cc
  obey_all-cancels (add when interval repeat ∷ cs) q ts held a t v r o l f c =
      Returns->>= (add_timer alloc q when interval repeat) _ _ _
        (obey-Represents alloc alloc_free (add when interval repeat) r)
        (λ p (r', k).
          Returns-mono (obey_all alloc p cs) _ _
            (obey_all-cancels cs p _ held a t v.1 r'
              (obeyed-Ordered alloc q ts (add when interval repeat) v.0 o) (k.calling_eq ∙ l) f c)
            (λ p' (b, y). (After-trans k b, y)))
  obey_all-cancels (cancel b s ∷ cs) q ts held a t v r o l f c =
      elim (Bool-cases (same_key a t.sequence b s)) [
        | inl e ↦
            Returns->>= (cancel_in_loop q b s) _ _ _ (cancel_in_loop-held q ts held a b s t r l f e)
              (λ p (r', k, y).
                Returns-mono (obey_all alloc p cs) _ _
                  (obey_all_lem alloc alloc_free cs p _ held v.1 r'
                    (obeyed-Ordered alloc q ts (cancel b s) v.0 o))
                  (λ p' d. (After-trans k d, d.keeps.keeps_key a t.sequence y)))
        | inr e ↦
            Returns->>= (cancel_in_loop q b s) _ _ _
              (obey-Represents alloc alloc_free (cancel b s) r)
              (λ p (r', k).
                Returns-mono (obey_all alloc p cs) _ _
                  (obey_all-cancels cs p _ held a t v.1 r'
                    (obeyed-Ordered alloc q ts (cancel b s) v.0 o) (k.calling_eq ∙ l) f
                    (ground arith))
                  (λ p' (d, y). (After-trans k d, y)))
      ]

  module _ (callback : TimerQueue → Timer → List Command)
      (timely : (q : TimerQueue) (t : Timer) → AreTimely (callback q t)) where
    run_all-cancels :
        (xs : List Timer) (q : TimerQueue) (ts held : List Timer) (a : ℕ) (t u : Timer)
        → Found held xs
        → Represents q ts held
        → Ordered ts
        → q.calling_expired ≡ true
        → find_at a held ≡ some t
        → find_at u.address xs ≡ some u
        → ((p : TimerQueue) → cancels a t.sequence (callback p u) ≡ true)
        → Returns (run_all alloc callback q (entries xs)) (λ q'.
          After (record q { ran = q.ran ++ sequences xs }) held q'
          × (q'.canceling_timers.has a t.sequence ≡ true))
    unfolding run_all
    run_all-cancels [] q ts held a t u fs r o l f g c = cc
    run_all-cancels (x ∷ xs) q ts held a t u fs r o l f g c =
        let called = record q { ran = q.ran ++ (x.sequence ∷ []) } in
        let r0 : Represents called ts held =
          with_fields q (q.ran ++ (x.sequence ∷ [])) q.armed q.calling_expired q.canceling_timers
            r in
        rw (found_held x r fs.0) (elim (Bool-cases (x.address == u.address)) [
          | inl e ↦
              let same : x ≡ u = ground arith in
              Returns->>= (obey_all alloc called (callback q x)) _ _ _
                (obey_all-cancels (callback q x) called ts held a t (timely q x) r0 o l f
                  (ap (λ y. cancels a t.sequence (callback q y)) same ∙ c q))
                (λ p (d, y).
                  Returns-mono (run_all alloc callback p (entries xs)) _ _
                    (run_all_lem alloc alloc_free callback timely xs p d.ts' held fs.1 d.represents
                      d.ordered)
                    (λ p' b. (After-run q x xs d b, b.keeps.keeps_key a t.sequence y)))
          | inr e ↦
              Returns->>= (obey_all alloc called (callback q x)) _ _ _
                (obey_all_lem alloc alloc_free (callback q x) called ts held (timely q x) r0 o)
                (λ p d.
                  Returns-mono (run_all alloc callback p (entries xs)) _ _
                    (run_all-cancels xs p d.ts' held a t u fs.1 d.represents d.ordered
                      (d.keeps.calling_eq ∙ l) f (ground arith) c)
                    (λ p' (b, y). (After-run q x xs d b, y)))
        ])

    -- Under the conditions of `handle_read_lem`: where the callback of one timer that is due always cancels a timer that is due
    -- too (itself, or another that was called before it or comes after it), `handleRead` deletes that timer, and it does not
    -- wait again, even if it repeats.
    pub handle_read-cancels :
        (q : TimerQueue) (ts : List Timer) (now a : ℕ) (t u : Timer)
        → 0 < now
        → IsQueue q ts
        → find_at a (due now ts) ≡ some t
        → find_at u.address (due now ts) ≡ some u
        → ((p : TimerQueue) → cancels a t.sequence (callback p u) ≡ true)
        → Returns (handle_read alloc callback q now) (λ q'.
          ((ts' : List Timer) × IsQueue q' ts' × (find_at a ts' ≡ none))
          × (find_at a q'.heap ≡ none))
    unfolding handle_read
    handle_read-cancels q ts now a t u h w f g c =
        let xs = due now ts in
        Returns->>= (get_expired (record q { armed = none }) now) _ _ _ (begin_lem q ts now w)
          (λ r b. rw b.entries_eq (
            Returns->>= (run_all alloc callback (at_calls r.1) (entries xs)) _ _ _
              (run_all-cancels xs (at_calls r.1) (later now ts) xs a t u b.found b.represents
                b.ordered refl f g c)
              (λ p (d, y).
                Returns-mono (reset (record p { calling_expired = false }) (entries xs) now) _ _
                  (end_lem now h d.represents d.ordered)
                  (λ p' (v, m).
                    let gone =
                      restarts_gone a now p.canceling_timers xs d.ts' t d.represents.distinct_held f
                        y (d.represents.disjoint a t f) in
                    (
                      (restarts now p.canceling_timers xs d.ts', v, gone),
                      v.represents.heap_eq a ∙ ap (λ o. or_else o none) gone,
                    )))))
