-- ===== src/Net/Epoll.antt =====
-- net/poller/EpollPoller.cc, with `hasChannel` of net/Poller.cc. A channel is known by a number that stands for its address,
-- and what the poller asks of the kernel is a command of epoll_ctl(2).
pub mod Interest
use slack.Base.{
  ℕ, suc, ◌+◌, ◌*◌, ◌≡◌, List, [], ◌∷◌, Bool, true, false, not, ◌&&◌, ◌||◌, Option, some, none,
  ◌==◌, leb, if◌then◌else◌, assert, ◌>>=◌, ◌>>◌, length,
}
use slack.Net.Channel.{Channel, Index, fresh, added, deleted, is_none_event}

-- `channels_`: which channel a descriptor belongs to.
abbrev pub ChannelMap : Type 0
ChannelMap = ℕ → Option ℕ

abbrev pub set : ChannelMap → ℕ → Option ℕ → ChannelMap
set m fd v = λ i. if i == fd then v else m i

pub record EpollPoller : Type 0 where
  pub channels : ChannelMap
  pub events : ℕ

-- The constructor; `events` is the size of `events_`.
abbrev pub init_event_list_size : ℕ
init_event_list_size = 16

abbrev pub empty_poller : EpollPoller
empty_poller = record { channels = λ fd. none; events = init_event_list_size }

-- `update`: `epoll_ctl` with an operation, a descriptor and, where it matters, the events.
pub data Ctl : Type 0 where
  ctl_add : ℕ → ℕ → Ctl
  ctl_mod : ℕ → ℕ → Ctl
  ctl_del : ℕ → Ctl

abbrev pub is_id : ℕ → Option ℕ → Bool
is_id id none = false
is_id id (some other) = id == other

abbrev pub is_missing : Option ℕ → Bool
is_missing none = true
is_missing (some id) = false

-- `channels_.find(fd) != channels_.end()` and `channels_[fd] == channel`, which the code asserts one
-- after the other; or `hasChannel`.
unfoldable pub has_channel : EpollPoller → ℕ → Channel → Bool
has_channel p id c = is_id id (p.channels c.fd)

-- A channel that is known from now on, and asked for.
abbrev pub adding : EpollPoller → Channel → EpollPoller × Channel × List Ctl
adding p c = (p, record c { index = added }, ctl_add c.fd c.events ∷ [])

unfoldable pub update_in :
    Index → EpollPoller → ℕ → Channel → Option (EpollPoller × Channel × List Ctl)
update_in fresh p id c = do
  assert (is_missing (p.channels c.fd))
  some (adding (record p { channels = set p.channels c.fd (some id) }) c)
update_in deleted p id c = do assert (has_channel p id c); some (adding p c)
update_in added p id c = do
  assert (has_channel p id c)
  some (
      if is_none_event c
      then (p, record c { index = deleted }, ctl_del c.fd ∷ [])
      else (p, c, ctl_mod c.fd c.events ∷ []))

unfoldable pub update_channel :
    EpollPoller → ℕ → Channel → Option (EpollPoller × Channel × List Ctl)
update_channel p id c = update_in c.index p id c

abbrev pub is_fresh : Index → Bool
is_fresh fresh = true
is_fresh i = false

abbrev pub is_added : Index → Bool
is_added added = true
is_added i = false

unfoldable pub remove_channel :
    EpollPoller → ℕ → Channel → Option (EpollPoller × Channel × List Ctl)
remove_channel p id c = do
  assert (has_channel p id c)
  assert (is_none_event c)
  assert (not (is_fresh c.index))
  some (
    record p { channels = set p.channels c.fd none },
    record c { index = fresh },
    if is_added c.index then ctl_del c.fd ∷ [] else [],
  )

-- What `epoll_wait` stored of one channel.
pub record Ready : Type 0 where
  pub id : ℕ
  pub channel : Channel
  pub events : ℕ

unfoldable pub fill_active : EpollPoller → List Ready → Option (List Channel)
fill_active p [] = some []
fill_active p (r ∷ rs) = do
  assert (has_channel p r.id r.channel)
  cs ← fill_active p rs
  some (record (r.channel) { revents = r.events } ∷ cs)

unfoldable pub fill_active_channels : EpollPoller → List Ready → Option (List Channel)
unfolding fill_active
fill_active_channels p rs = do assert (leb (length rs) p.events); fill_active p rs

-- `poll`, once `epoll_wait` has answered; with no event it is the same for a timeout and an error.
unfoldable pub poll : EpollPoller → List Ready → Option (EpollPoller × List Channel)
poll p [] = some (p, [])
poll p (r ∷ rs) = do
  active ← fill_active_channels p (r ∷ rs)
  some (
      if length (r ∷ rs) == p.events
      then (record p { events = p.events * 2 }, active)
      else (p, active))
