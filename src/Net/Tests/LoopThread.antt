-- ===== src/Net/Tests/LoopThread.antt =====
-- The theorems on net/EventLoopThread.cc where the loop runs before the caller of `startLoop` looks.
use slack.Base.{true, refl}
use slack.Net.EventLoopThread.{
  EventLoopThread, new_thread, looping, looking, start_loop, run_callback, publish, look, back,
}
use slack.Net.EventLoopThread.Steps.{
  Steps, done, more, starts, calls_back, publishes, looks, Promise, Steps-Promise,
}

abbrev running : EventLoopThread
running = record { thread = looping; caller = looking; loop_set = true; initialised = true }

running-Steps : Steps new_thread running
unfolding start_loop run_callback publish
running-Steps = more (more (more done (starts refl)) (calls_back refl)) (publishes refl)

abbrev returned : EventLoopThread
returned = record { thread = looping; caller = back; loop_set = true; initialised = true }

returned-Steps : Steps new_thread returned
unfolding look
returned-Steps = more running-Steps (looks refl)

Steps-Promise_example : Promise returned.caller returned
Steps-Promise_example = Steps-Promise returned returned-Steps
