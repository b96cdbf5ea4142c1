-- ===== src/Net/Epoll/Interest.antt =====
-- The commands of net/poller/EpollPoller.cc against the interest list of epoll(7).
use slack.Base.{
  ℕ, ◌≡◌, ◌≢◌, List, [], ◌∷◌, true, Option, some, none, if◌then◌else◌, ◌>>=◌, arith, refl, Returns,
  Bool-cases, inl, inr, ==_refl,
}
use slack.Net.Channel.{Channel, Index, fresh, added, deleted, is_none_event}
use slack.Net.Epoll.{
  EpollPoller, ChannelMap, set, Ctl, ctl_add, ctl_mod, ctl_del, has_channel, update_in,
  update_channel, remove_channel,
}

-- The events that the kernel watches a descriptor for.
abbrev pub Interest : Type 0
Interest = ℕ → Option ℕ

-- epoll_ctl(2): `EEXIST` for what is there, `ENOENT` for what is not.
abbrev added_to : Interest → ℕ → ℕ → Option ℕ → Option Interest
added_to k fd events none = some (set k fd (some events))
added_to k fd events (some e) = none

abbrev changed_in : Interest → ℕ → Option ℕ → Option ℕ → Option Interest
changed_in k fd v none = none
changed_in k fd v (some e) = some (set k fd v)

abbrev pub epoll_ctl : Interest → Ctl → Option Interest
epoll_ctl k (ctl_add fd events) = added_to k fd events (k fd)
epoll_ctl k (ctl_mod fd events) = changed_in k fd (some events) (k fd)
epoll_ctl k (ctl_del fd) = changed_in k fd none (k fd)

abbrev pub epoll_ctls : Interest → List Ctl → Option Interest
epoll_ctls k [] = some k
epoll_ctls k (x ∷ xs) = epoll_ctl k x >>= λ k'. epoll_ctls k' xs

-- What the index of a channel says of the poller and the kernel.
pub data Registered (p : EpollPoller) (k : Interest) (id : ℕ) (c : Channel) : Type 0 where
  is_fresh : c.index ≡ fresh → p.channels c.fd ≡ none → k c.fd ≡ none → Registered p k id c
  is_added :
      (events : ℕ)
      → c.index ≡ added
      → p.channels c.fd ≡ some id
      → k c.fd ≡ some events
      → Registered p k id c
  is_deleted : c.index ≡ deleted → p.channels c.fd ≡ some id → k c.fd ≡ none → Registered p k id c

set-same : (m : ChannelMap) (fd : ℕ) (v : Option ℕ) → set m fd v fd ≡ v
set-same m fd v = rw (==_refl fd) refl

set-other : (m : ChannelMap) (fd i : ℕ) (v : Option ℕ) → i ≢ fd → set m fd v i ≡ m i
set-other m fd i v n = ground arith

-- The outcome of a call: the kernel takes every command, the channel is registered as its index says,
-- the kernel watches as wanted, and no other descriptor is touched.
pub record Obeyed (p : EpollPoller) (k : Interest) (id fd : ℕ) (wanted : Option ℕ)
    (r : EpollPoller × Channel × List Ctl) : Type 0 where
  pub kernel : Interest
  pub taken : epoll_ctls k r.2 ≡ some kernel
  pub registered : Registered r.0 kernel id r.1
  pub wanted_eq : kernel fd ≡ wanted
  pub others : (i : ℕ) → i ≢ fd → (r.0.channels i ≡ p.channels i) × (kernel i ≡ k i)

-- A known channel that watches for nothing leaves the kernel's list; one that only just enters it does
-- so with its mask, even an empty one.
abbrev wanted_in : Index → Channel → Option ℕ
wanted_in fresh c = some c.events
wanted_in added c = if is_none_event c then none else some c.events
wanted_in deleted c = some c.events

abbrev pub wanted : Channel → Option ℕ
wanted c = wanted_in c.index c

-- A call that the kernel obeys with one new entry, none for a removal.
entered :
    {p : EpollPoller} {k : Interest} (id : ℕ) (c : Channel) (channels : ChannelMap)
    → k c.fd ≡ none
    → channels c.fd ≡ some id
    → ((i : ℕ) → i ≢ c.fd → channels i ≡ p.channels i)
    → Obeyed p k id c.fd
        (some c.events)
        (record p { channels = channels }, record c { index = added }, ctl_add c.fd c.events ∷ [])
entered {p} {k} id c channels n m same = record {
  kernel = set k c.fd (some c.events);
  taken = rw n refl;
  registered = is_added c.events refl m (set-same k c.fd (some c.events));
  wanted_eq = set-same k c.fd (some c.events);
  others = λ i d. (same i d, set-other k c.fd i (some c.events) d);
}

-- `updateChannel` on a channel that is registered as its index says returns; the kernel takes its
-- command, so the call is never the one that ends in LOG_SYSFATAL; the channel is then registered as
-- its new index says and watched for as its mask wants; and no other descriptor is touched.
pub update_channel_lem :
    {p : EpollPoller} {k : Interest} {id : ℕ} {c : Channel}
    → Registered p k id c
    → Returns (update_channel p id c) (Obeyed p k id c.fd (wanted c))
unfolding update_channel update_in has_channel
update_channel_lem {p} {k} {id} {c} (is_fresh i m n) =
    rw (i, m)
      (entered id c (set p.channels c.fd (some id)) n (set-same p.channels c.fd (some id))
        λ j d. set-other p.channels c.fd j (some id) d)
update_channel_lem {p} {k} {id} {c} (is_added e i m n) =
    rw (i, m, ==_refl id)
      (elim (Bool-cases (is_none_event c)) [
        | inl z ↦ rw z (record {
          kernel = set k c.fd none;
          taken = rw n refl;
          registered = is_deleted refl m (set-same k c.fd none);
          wanted_eq = set-same k c.fd none;
          others = λ j d. (refl, set-other k c.fd j none d);
        })
        | inr z ↦ rw z (record {
          kernel = set k c.fd (some c.events);
          taken = rw n refl;
          registered = is_added c.events refl m (set-same k c.fd (some c.events));
          wanted_eq = set-same k c.fd (some c.events);
          others = λ j d. (refl, set-other k c.fd j (some c.events) d);
        })
      ])
update_channel_lem {p} {k} {id} {c} (is_deleted i m n) =
    rw (i, m, ==_refl id) (entered id c p.channels n m λ j d. refl)

-- `removeChannel` on a registered channel that watches for nothing and that has been updated before
-- returns; the kernel takes its command, if it needs one; poller and kernel both forget the channel,
-- which is new again; and no other descriptor is touched.
pub remove_channel_lem :
    {p : EpollPoller} {k : Interest} {id : ℕ} {c : Channel}
    → Registered p k id c
    → is_none_event c ≡ true
    → c.index ≢ fresh
    → Returns (remove_channel p id c) (λ r. Obeyed p k id c.fd none r × (r.1.index ≡ fresh))
unfolding remove_channel has_channel
remove_channel_lem (is_fresh i m n) e u = absurd (u i)
remove_channel_lem {p} {k} {id} {c} (is_added x i m n) e u =
    rw (i, m, ==_refl id, e)
      (
        record {
          kernel = set k c.fd none;
          taken = rw n refl;
          registered = is_fresh refl (set-same p.channels c.fd none) (set-same k c.fd none);
          wanted_eq = set-same k c.fd none;
          others = λ j d. (set-other p.channels c.fd j none d, set-other k c.fd j none d);
        },
        refl,
      )
remove_channel_lem {p} {k} {id} {c} (is_deleted i m n) e u =
    rw (i, m, ==_refl id, e)
      (
        record {
          kernel = k;
          taken = refl;
          registered = is_fresh refl (set-same p.channels c.fd none) n;
          wanted_eq = n;
          others = λ j d. (set-other p.channels c.fd j none d, refl);
        },
        refl,
      )
