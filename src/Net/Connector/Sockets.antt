-- ===== src/Net/Connector/Sockets.antt =====
-- How long net/Connector.cc waits between its attempts.
use slack.Base.{
  ℕ, ◌*◌, ◌≡◌, List, [], ◌∷◌, ◌++◌, true, min, refl, ◌∙◌, ap, sym, append_assoc, append-nil,
}
use slack.Net.Connector.{
  Connector, ConnectEffect, opened, closed, handed_over, updated, removed, reset_queued,
  start_after, max_retry_delay_ms, retry,
}

-- The waiting times that retries have asked for.
abbrev pub delays : List ConnectEffect → List ℕ
delays [] = []
delays (start_after ms ∷ es) = ms ∷ delays es
delays (opened fd ∷ es) = delays es
delays (closed fd ∷ es) = delays es
delays (handed_over fd ∷ es) = delays es
delays (updated c ∷ es) = delays es
delays (removed c ∷ es) = delays es
delays (reset_queued ∷ es) = delays es

delays-append : (xs ys : List ConnectEffect) → delays (xs ++ ys) ≡ delays xs ++ delays ys
delays-append [] ys = refl
delays-append (start_after ms ∷ xs) ys = ap (λ l. ms ∷ l) (delays-append xs ys)
delays-append (opened fd ∷ xs) ys = delays-append xs ys
delays-append (closed fd ∷ xs) ys = delays-append xs ys
delays-append (handed_over fd ∷ xs) ys = delays-append xs ys
delays-append (updated c ∷ xs) ys = delays-append xs ys
delays-append (removed c ∷ xs) ys = delays-append xs ys
delays-append (reset_queued ∷ xs) ys = delays-append xs ys

-- A connector after a retry for each of these sockets.
abbrev pub retries : Connector → List ℕ → Connector
retries c [] = c
retries c (fd ∷ fds) = retries (retry c fd) fds

-- The waiting time is doubled each time, up to 30 s.
abbrev pub back_off : ℕ → List ℕ → List ℕ
back_off ms [] = []
back_off ms (fd ∷ fds) = ms ∷ back_off (min (ms * 2) max_retry_delay_ms) fds

delays-retry :
    (c : Connector) (fd : ℕ)
    → c.connect ≡ true
    → delays (retry c fd).effects ≡ delays c.effects ++ (c.retry_delay_ms ∷ [])
unfolding retry
delays-retry c fd e = rw e (
    delays-append (c.effects ++ (closed fd ∷ [])) (start_after c.retry_delay_ms ∷ [])
    ∙ ap (λ l. l ++ (c.retry_delay_ms ∷ []))
        (delays-append c.effects (closed fd ∷ []) ∙ append-nil (delays c.effects)))

next_delay :
    (c : Connector) (fd : ℕ)
    → c.connect ≡ true
    → (retry c fd).retry_delay_ms ≡ min (c.retry_delay_ms * 2) max_retry_delay_ms
unfolding retry
next_delay c fd e = rw e refl

still_connect : (c : Connector) (fd : ℕ) → c.connect ≡ true → (retry c fd).connect ≡ true
unfolding retry
still_connect c fd e = rw e refl

-- A connector that is asked to connect and has to retry again and again waits for its current delay,
-- then each time for twice as long, but never longer than 30 s.
pub delays-retries :
    (fds : List ℕ) (c : Connector)
    → c.connect ≡ true
    → delays (retries c fds).effects ≡ delays c.effects ++ back_off c.retry_delay_ms fds
delays-retries [] c e = sym (append-nil (delays c.effects))
delays-retries (fd ∷ fds) c e =
    delays-retries fds (retry c fd) (still_connect c fd e)
    ∙ rw (delays-retry c fd e, next_delay c fd e)
        (append_assoc (delays c.effects) (c.retry_delay_ms ∷ [])
          (back_off (min (c.retry_delay_ms * 2) max_retry_delay_ms) fds))
