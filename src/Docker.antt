-- ===== src/Docker.antt =====
-- internal/provider/docker_readiness.go: `WaitReady` of the Docker provider. An event is a case of
-- its `select`, or bytes that the other goroutine copies from the logs; the answers of the daemon
-- and the clock come with the events.
pub mod Marker
pub mod Frames
pub mod Passing
pub mod Waits
pub mod Ready
mod Examples
use runscaler.Base.{
  ℕ, ◌-◌, Bool, true, false, ◌&&◌, ◌||◌, not, Option, none, some, is_some, List, [], ◌∷◌, leb,
  if◌then◌else◌,
}
use runscaler.Docker.Marker.{Writer, new_writer, ready_marker, write}

pub data WaitResult : Type 0 where
  ready readiness_disabled readiness_unavailable exited_before_ready readiness_timeout
        context_ended :
      WaitResult

-- What the container is inspected to be: whether it runs, where there is a state, and whether there
-- is a configuration.
pub data Inspected : Type 0 where
  inspect_failed : Inspected
  inspected : Option Bool → Bool → Inspected

pub data Stream : Type 0 where
  stdout stderr : Stream

pub data Event : Type 0 where
  -- `ctx.Done()`, and whether the parent context has ended too.
  deadline : Bool → Event
  -- The closed channel of the marker, at a time.
  marker : ℕ → Event
  finished : Event
  -- `none`: the inspection failed or gave no state. Otherwise whether the container runs, and the
  -- time after the inspection.
  tick : Option Bool → ℕ → Event
  output : Stream → List ℕ → Event

pub record Waiting : Type 0 where
  pub unavailable : Bool
  -- Whether the logs could be opened.
  pub opened : Bool
  pub out : Writer
  pub err : Writer
  pub marked : Option ℕ

-- The first inspection, and whether the logs open.
abbrev pub is_unavailable : Inspected → Bool
is_unavailable inspect_failed = true
is_unavailable (inspected none config) = true
is_unavailable (inspected (some running) config) = not config

abbrev pub has_exited : Inspected → Bool
has_exited (inspected (some running) config) = not running
has_exited _ = false

abbrev pub started_wait : Inspected → Bool → Waiting
started_wait initial logs =
    let opened = not (is_unavailable initial) && logs in
    record {
      unavailable = not opened;
      opened = opened;
      out = new_writer;
      err = new_writer;
      marked = none;
    }

abbrev pub written : Waiting → Stream → List ℕ → Waiting
written w stdout p = record w { out = write ready_marker w.out p }
written w stderr p = record w { err = write ready_marker w.err p }

-- What an event does where the wait goes on.
unfoldable pub handle : Waiting → Event → Waiting
unfolding write
handle w (deadline parent) = w
handle w (marker now) =
    if (w.out.found || w.err.found) && not (is_some w.marked)
    then record w { marked = some now }
    else w
handle w finished = if w.opened then record w { unavailable = true } else w
handle w (tick none now) = record w { unavailable = true }
handle w (tick (some running) now) = w
handle w (output s p) = if w.opened then written w s p else w

abbrev pub settled : ℕ → Option ℕ → ℕ → Option WaitResult
settled settle none now = none
settled settle (some at) now = if leb settle (now - at) then some ready else none

-- What the wait returns at an event, if it returns.
abbrev pub answer : ℕ → Waiting → Event → Option WaitResult
answer settle w (deadline parent) = some (
    if parent
    then context_ended
    else if w.unavailable
    then readiness_unavailable
    else readiness_timeout)
answer settle w (tick (some false) now) = some exited_before_ready
answer settle w (tick (some true) now) = settled settle w.marked now
answer settle w _ = none

abbrev pub resume : Option WaitResult → Option WaitResult → Option WaitResult
resume none rest = rest
resume (some r) rest = some r

unfoldable pub wait_loop : ℕ → Waiting → List Event → Option WaitResult
unfolding handle
wait_loop settle w [] = none
wait_loop settle w (e ∷ es) = resume (answer settle w e) (wait_loop settle (handle w e) es)

-- What `WaitReady` returns; `none` where it still waits after the events. What it defers before the
-- return, closing the stream and waiting for the goroutine that reads it, is not modelled: the result
-- is settled then.
unfoldable pub wait_ready :
    Bool → Bool → Bool → Inspected → Bool → ℕ → List Event → Option WaitResult
unfolding wait_loop
wait_ready enabled ended inspector initial logs settle es =
    if not enabled
    then some readiness_disabled
    else if ended
    then some context_ended
    else if not inspector
    then some readiness_unavailable
    else if has_exited initial
    then some exited_before_ready
    else wait_loop settle (started_wait initial logs) es
