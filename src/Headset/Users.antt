-- ===== src/Headset/Users.antt =====
-- How the counts of streams and what the device is told go together.
use inferno_windows.Prelude.{ℕ, ◌+◌, ◌<◌, ◌^◌, ◌≡◌, some, List, length}
use inferno_windows.Headset.{
  Direction, Opening, Starting, stream_open, stream_close, stream_start, stream_suspend,
}
use inferno_windows.Headset.Gate.{Gate, Use, run_uses, users, IsCounted, run_uses-IsCounted}
use inferno_windows.Headset.Counts.{
  opening_took, starting_took, stream_open-IsFirst, stream_open_more, stream_close_last,
  stream_close_more, stream_start-IsFirst, stream_start_more, stream_suspend_last,
  stream_suspend_more,
}

-- Opening and closing, and starting and suspending, as counts of users.
abbrev pub open_gate : Gate Direction Opening
open_gate = record {
  count = λ d. d.opens;
  log = λ d. d.opened;
  took = opening_took;
  begin = λ a d. (stream_open a d).1;
  finish = λ c d. (stream_close c d).1;
  begin_first = stream_open-IsFirst;
  begin_more = stream_open_more;
  finish_last = stream_close_last;
  finish_more = stream_close_more;
}

abbrev pub start_gate : Gate Direction Starting
start_gate = record {
  count = λ d. d.starts;
  log = λ d. d.started;
  took = starting_took;
  begin = λ a d. (stream_start a d).1;
  finish = λ c d. (stream_suspend c d).1;
  begin_first = stream_start-IsFirst;
  begin_more = stream_start_more;
  finish_last = stream_suspend_last;
  finish_more = stream_suspend_more;
}

-- Streams of one direction that are opened and closed, with any failures: where each closes that
-- opened and fewer than 2^32 calls are made, the count is the number of open streams, and the device
-- was told to open and to close in turn, last to open if and only if there are open streams.
pub opens-IsCounted :
    (us : List (Use Opening)) (d : Direction) (n left : ℕ)
    → n + length us < 2 ^ 32
    → users open_gate us n ≡ some left
    → IsCounted open_gate n d
    → IsCounted open_gate left (run_uses open_gate us d)
opens-IsCounted us d n left bound h p = run_uses-IsCounted open_gate us d n left bound h p

-- Streams of one direction that are started and suspended, with any failures: where each suspends
-- that started and fewer than 2^32 calls are made, the count is the number of started streams, and
-- the device was told to start and to suspend in turn, last to start if and only if there are
-- started streams.
pub starts-IsCounted :
    (us : List (Use Starting)) (d : Direction) (n left : ℕ)
    → n + length us < 2 ^ 32
    → users start_gate us n ≡ some left
    → IsCounted start_gate n d
    → IsCounted start_gate left (run_uses start_gate us d)
starts-IsCounted us d n left bound h p = run_uses-IsCounted start_gate us d n left bound h p
