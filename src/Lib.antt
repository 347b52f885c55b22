-- ===== src/Lib.antt =====
-- runscaler serves GitHub Actions jobs with ephemeral runners. One process runs a controller for
-- each scale set (internal/controller). A controller keeps a map of its runners, asks the
-- process-wide capacity broker (internal/capacity) for a host slot before it starts one, waits
-- between failed starts (internal/backoff), has the disk guard (internal/diskguard) make room, and
-- calls GitHub and a provider (Docker or Tart). The settings come from a file, with inheritance
-- between scale sets (internal/config), and a health server reports on all of it (internal/health).
-- The development models these parts and states what makes each correct.
--
-- Capacity.antt is internal/capacity/broker.go: `register` is `Register`, `acquire` and `abandon`
-- are `Acquire` up to its `select` and in its `ctx.Done()` branch, `release` is `Lease.Release`,
-- `dispatch` is `dispatchLocked` with `choose` for the two calls of `nextWaiterLocked`. Its children
-- hold the theorems: Dispatch on what a dispatch leaves, Invariant and Reach on the counters,
-- Reservation and Guarantee on the minimums, Leases on releases, Fifo on the order.
-- Capacity/Wiring.antt sets the broker up as cmd/runner/main.go does, from the numbers of runners
-- that internal/config/config.go admits.
--
-- Instances.antt is the data of internal/controller/state.go, Instances/Ops.antt and
-- Instances/Ops/Claims.antt are its methods, under their names. Instances/Step.antt makes one list
-- of operations of them. Change.antt and Effect say what a method does to one runner and to the map;
-- Valid, Phases, ScaleDown, Removal, Leases and Bound hold the theorems.
--
-- Backoff.antt is internal/backoff/backoff.go and the retry settings of
-- internal/config/reliability.go; Backoff/Bounds.antt has the closed form of the delay.
--
-- Controller.antt is the state of `ScaleSetController` (internal/controller/controller.go). Its
-- children Retry (retry.go, runtime.go), Demand (the listener's callbacks, exits, readiness.go),
-- Cleanup (`removeClaimedInstance`, diagnostics.go), Start (`startInstanceWithLease`), Reconcile
-- (`reconcileOne`, `acquireCapacity`) and Drain (`Drain`, `Shutdown`) are its operations; Safety,
-- Barrier, Rounds, Slots, Starts, Wakeups and Backoffs hold the theorems.
--
-- Disk.antt is internal/diskguard/guard.go with the tiers of internal/cachestore/store.go and the
-- `BytesOf` of internal/bytesize/threshold.go; Tiers, Ladder and Groups under Disk hold the
-- theorems.
--
-- Bytesize.antt is `ParseThreshold` of internal/bytesize/threshold.go, with the digits read one by
-- one and a product that wraps at 2^64; Numerals and RoundTrip hold the theorems.
--
-- Health.antt is internal/health/health.go: the server and its registrations; Health/Handlers.antt
-- is `handleHealthz` and `handleReadyz`. Readiness compares the two, Events has all calls in any
-- order.
--
-- Config.antt is the nested tables of internal/config/load.go; Merge is `deepMerge`, Keys the keys
-- that are refused, left out and reported, Load is `Load`. Settings has the decoded types and
-- getters of config.go, CacheVolumes is `ParseCacheVolumes`, DiskGuard is `DiskConfig.Validate`,
-- Validate the checks of config.go and auth.go with `validateScaleSetCollection` of
-- cmd/runner/main.go, Startup the checks that open `runManager`. Paths, Inherit, Loaded, Mounts,
-- Accepted and Collection hold the theorems.
--
-- Tart.antt is the part of internal/provider/tart.go that handles the slots of the host: `acquire`,
-- `release_vm` (`releaseVM`), `destroy_vm`, `start_warm` (`StartInstance`), `remove_instance`;
-- Tart/Boot.antt is `bootVM` with its commands, Tart/Network.antt is
-- internal/provider/tart_network.go. Conserves, Slots, Boot and Mtu hold the theorems. What the
-- model knows of a machine (`halted`, `exited`) is kept apart from its slot (`released`).
--
-- Docker.antt is `WaitReady` of internal/provider/docker_readiness.go, Docker/Marker.antt its
-- `readyMarkerWriter`, Docker/Frames.antt its `boundedDockerFrames`; Waits, Ready and Passing hold
-- the theorems.
--
-- Base.antt passes on the names of the libraries and of its children: lists and tests on native
-- numbers, texts, and Go maps as association lists (Base/Assoc.antt). Each Examples.antt, and
-- Config/Runs.antt, has concrete runs.
--
-- How the model stands to the code. Whatever runs under one mutex is one function. Where a handler
-- gives its locks up and waits, for GitHub, the provider, the disk or the workers, what other
-- goroutines do meanwhile is an argument, any function on controllers. Where it takes several locks
-- one after the other without a wait, as a round of the reconciler does up to its wait for capacity
-- and again after it, that is one step: what others do between the locks is left out. A blocking
-- wait for capacity is two operations. Goroutines that only wait for a timer or a wakeup are not
-- modelled; the wakeup itself is (`signalled`). Pointers become names: a lease is its ticket, the
-- group of a waiter its name. Go's order of iteration over a map is an argument wherever the result
-- depends on it. Counters are natural numbers without overflow; times and durations are nanoseconds,
-- the zero time is 0; an `int` that may be negative (the limit of the broker, a minimum) is ℤ. An
-- element that the code cannot miss, such as the group of a waiter, is a lookup with a default in
-- the model, and the invariants show that it is there. Calls that leave the process have their
-- answers as arguments, and those that change something there are listed.
--
-- The only fuel in the model of the code is the length of the queue, for the loop of
-- `dispatchLocked`: every round takes a request off the queue, so that the loop cannot go on longer.
-- The decimal numerals that a theorem on thresholds parses (Bytesize/Numerals.antt) are made with
-- the number as fuel.
--
-- Not modelled: logging and log files; the deadlines of contexts; the reports that diagnostics
-- saves; the commands of the command line and the service installation (cmd/runner); the Docker
-- provider but for its readiness check, and the stores' own work, which are calls of other programs;
-- reading private keys; file locks, paths and the version check. Viper, mapstructure, regular
-- expressions, URLs and paths are libraries: what the code asks of them is a parameter.
pub mod Base
pub mod Capacity
pub mod Instances
pub mod Backoff
pub mod Controller
pub mod Disk
pub mod Bytesize
pub mod Health
pub mod Config
pub mod Docker
pub mod Tart
