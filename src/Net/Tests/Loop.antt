-- ===== src/Net/Tests/Loop.antt =====
-- The theorems on the poller, the pool of loops and the connector at concrete inputs.
use slack.Base.{◌+◌, ◌≡◌, [], ◌∷◌, true, some, none, arith, refl, Returns}
use slack.Net.Channel.{Channel, Index, fresh, added}
use slack.Net.Channel
use slack.Net.Epoll.{EpollPoller, empty_poller, update_channel, remove_channel}
use slack.Net.Epoll.Interest.{
  Interest, Registered, is_fresh, is_added, Obeyed, update_channel_lem, remove_channel_lem,
}
use slack.Net.EventLoopThreadPool.{LoopPool}
use slack.Net.Connector.{
  Connector, new_connector, start, start_in_loop, try_connect, try_again, retry, is_idle, effect,
  opened,
}
use slack.Net.Connector.Balance.{opens, releases, held, done, more, starts, Steps-IsBalanced}

-- A channel that watches for reading, and is new to the poller.
abbrev reader : Channel
reader = record (Channel.make 7) { events = 3; added_to_loop = true }

abbrev nothing : Interest
nothing = λ fd. none

reader-Registered : Registered empty_poller nothing 1 reader
unfolding Channel.make
reader-Registered = is_fresh refl refl refl

update_channel_lem_example :
    Returns (update_channel empty_poller 1 reader) (Obeyed empty_poller nothing 1 7 (some 3))
unfolding Channel.make
update_channel_lem_example = update_channel_lem reader-Registered

-- The same channel, known to the poller, after `disableAll`.
abbrev quiet : Channel
quiet = record (Channel.make 7) { index = added; added_to_loop = true }

abbrev one_channel : EpollPoller
one_channel = record empty_poller { channels = λ fd. some 1 }

abbrev one_interest : Interest
one_interest = λ fd. some 3

quiet-Registered : Registered one_channel one_interest 1 quiet
quiet-Registered = is_added 3 refl refl refl

remove_channel_lem_example :
    Returns
      (remove_channel one_channel 1 quiet)
      (λ r. Obeyed one_channel one_interest 1 quiet.fd none r × (r.1.index ≡ fresh))
unfolding Channel.make
remove_channel_lem_example = remove_channel_lem quiet-Registered refl (λ e. ground arith)

abbrev pool : LoopPool
pool = record { base_loop = 0; started = true; next = 0; loops = 4 ∷ 5 ∷ 6 ∷ [] }

abbrev eager : Connector
eager = record new_connector { connect = true }

-- One attempt that is refused, and is to be repeated after 500 ms.
abbrev refused_once : Connector
refused_once = retry (effect eager (opened 3)) 3

refused_start : start new_connector 3 try_again ≡ some refused_once
unfolding start start_in_loop try_connect is_idle
refused_start = refl

Steps-IsBalanced_example :
    opens 3 refused_once.effects
    ≡ releases 3 refused_once.effects + held refused_once.state refused_once.channel 3
Steps-IsBalanced_example =
    Steps-IsBalanced refused_once 3 (more done (starts 3 try_again refused_start))
