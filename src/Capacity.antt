-- ===== src/Capacity.antt =====
-- internal/capacity/broker.go: the process-wide capacity broker, its allocators and leases.
-- Pointers become names: a group is known by its name, a waiter and the lease that it is granted by
-- one ticket. `w.granted` is "a lease of that ticket exists", and `Lease.once` is `released`.
-- A method that mutates the broker under its mutex returns the new broker. `Acquire` blocks, so it
-- is two operations: `acquire` up to the `select`, and `abandon` for its `ctx.Done()` branch (its
-- other branch only hands out the lease). Counters are natural numbers.
pub mod Dispatch
pub mod Counting
pub mod Invariant
pub mod Reach
pub mod Reservation
pub mod Guarantee
pub mod Leases
pub mod Fifo
pub mod Wiring
pub mod Numbering
mod Examples
use runscaler.Base.{
  ℕ, zero, suc, ◌+◌, ◌-◌, String, str_eq, Bool, true, false, ◌&&◌, ◌||◌, not, Option, none, some,
  List, [], ◌∷◌, ◌++◌, ltb, leb, ◌==◌, if◌then◌else◌, length, get_elem?, remove_at, is_some,
}
use runscaler.Base.Assoc.{lookup, modify, add}
use runscaler.Base.Int.{ℤ, pos, negsuc, pos_part}
use mathlib.Core.Option

pub record Group : Type 0 where
  pub minimum : ℕ
  pub in_use : ℕ

pub record Waiter : Type 0 where
  pub ticket : ℕ
  pub group : String
  pub cancelled : Bool

pub record Lease : Type 0 where
  pub ticket : ℕ
  pub group : String
  pub released : Bool

pub record Broker : Type 0 where
  pub limit : ℤ
  pub in_use : ℕ
  pub groups : List (String × Group)
  pub waiters : List Waiter
  pub leases : List Lease
  pub next_ticket : ℕ

unfoldable pub new_broker : ℤ → Broker
new_broker limit = record {
  limit = limit;
  in_use = 0;
  groups = [];
  waiters = [];
  leases = [];
  next_ticket = 0;
}

abbrev pub registered : Broker → String → ℤ → Broker
registered b name minimum = record b {
  groups = add name (record { minimum = pos_part minimum; in_use = 0 }) b.groups;
}

-- `none` is the panic on a duplicate name.
unfoldable pub register : Broker → String → ℤ → Option Broker
register b name minimum =
    if is_some (lookup name b.groups) then none else some (registered b name minimum)

-- What a waiter's group pointer leads to; every waiter's group is registered.
abbrev pub group_at : Option Group → Group
group_at (some g) = g
group_at none = record { minimum = 0; in_use = 0 }

abbrev pub group_of : Broker → String → Group
group_of b name = group_at (lookup name b.groups)

abbrev pub unlimited : Broker → Bool
unlimited b = leb (pos_part b.limit) 0

-- The loop over `b.groups` in `surplusAvailableLocked`.
pub reserved_for_others : String → List (String × Group) → ℕ
reserved_for_others requesting [] = 0
reserved_for_others requesting ((name, g) ∷ gs) =
    let rest = reserved_for_others requesting gs in
    if str_eq name requesting || leb g.minimum g.in_use then rest else g.minimum - g.in_use + rest

-- `limit - inUse - 1 >= reserved`, without the subtraction.
pub surplus_available : Broker → String → Bool
surplus_available b requesting =
    if unlimited b
    then true
    else leb (reserved_for_others requesting b.groups + b.in_use + 1) (pos_part b.limit)

abbrev pub below_minimum : Broker → String → Bool
below_minimum b name = let g = group_of b name in ltb g.in_use g.minimum

abbrev pub same : Bool → Bool → Bool
same true b = b
same false b = not b

-- The test that `nextWaiterLocked` makes of one waiter.
pub eligible : Broker → Bool → Waiter → Bool
eligible b minimum w =
    not w.cancelled
    && same (below_minimum b w.group) minimum
    && (below_minimum b w.group || surplus_available b w.group)

-- `none` is the source's -1.
pub next_waiter : Broker → Bool → List Waiter → Option ℕ
next_waiter b minimum [] = none
next_waiter b minimum (w ∷ ws) =
    let rest = next_waiter b minimum ws in
    if eligible b minimum w then some 0 else Option.map suc rest

abbrev pub or_else : Option ℕ → Option ℕ → Option ℕ
or_else (some i) o = some i
or_else none o = o

-- A minimum waiter, or else a surplus waiter.
pub choose : Broker → Option ℕ
choose b = or_else (next_waiter b true b.waiters) (next_waiter b false b.waiters)

abbrev pub add_use : Group → Group
add_use g = record g { in_use = g.in_use + 1 }

abbrev pub drop_use : Group → Group
drop_use g = record g { in_use = g.in_use - 1 }

abbrev pub grant_to : Broker → ℕ → Option Waiter → Broker
grant_to b i none = b
grant_to b i (some w) = record b {
  waiters = remove_at b.waiters i;
  in_use = b.in_use + 1;
  groups = modify w.group add_use b.groups;
  leases = b.leases ++ record { ticket = w.ticket; group = w.group; released = false } ∷ [];
}

-- The body of `dispatchLocked`'s loop, once a waiter is chosen.
pub grant : Broker → ℕ → Broker
grant b i = grant_to b i (get_elem? b.waiters i)

abbrev pub has_capacity : Broker → Bool
has_capacity b = unlimited b || ltb b.in_use (pos_part b.limit)

-- The loop of `dispatchLocked`; every round takes a waiter off the queue.
pub dispatch_loop : ℕ → Broker → Broker
dispatch_loop zero b = b
dispatch_loop (suc fuel) b =
    let next : Broker = elim (choose b) [ none ↦ b | some i ↦ dispatch_loop fuel (grant b i) ] in
    if has_capacity b then next else b

pub compact : List Waiter → List Waiter
compact [] = []
compact (w ∷ ws) = if w.cancelled then compact ws else w ∷ compact ws

abbrev pub compact_waiters : Broker → Broker
compact_waiters b = record b { waiters = compact b.waiters }

pub dispatch : Broker → Broker
dispatch b = compact_waiters (dispatch_loop (length b.waiters) b)

unfoldable pub find_lease : ℕ → List Lease → Option Lease
find_lease t [] = none
find_lease t (l ∷ ls) = if l.ticket == t then some l else find_lease t ls

pub mark_released : ℕ → List Lease → List Lease
mark_released t [] = []
mark_released t (l ∷ ls) =
    if l.ticket == t then record l { released = true } ∷ ls else l ∷ mark_released t ls

abbrev pub release_found : Broker → Option Lease → Broker
release_found b none = b
release_found b (some l) =
    if l.released
    then b
    else dispatch (record b {
      in_use = b.in_use - 1;
      groups = modify l.group drop_use b.groups;
      leases = mark_released l.ticket b.leases;
    })

-- `Lease.Release`: a second call finds `once` spent.
pub release : Broker → ℕ → Broker
release b t = release_found b (find_lease t b.leases)

pub data Acquired : Type 0 where
  refused : Acquired  -- the context had ended
  unmanaged : Acquired  -- no broker: the empty lease
  leased : ℕ → Acquired
  blocked : ℕ → Acquired

-- `Acquire` up to its `select`; the group is `none` for an allocator without a broker.
pub acquire : Broker → Bool → Option String → Broker × Acquired
acquire b ended none = (b, if ended then refused else unmanaged)
acquire b ended (some name) =
    let t = b.next_ticket in
    let b' = dispatch (record b {
      waiters = b.waiters ++ record { ticket = t; group = name; cancelled = false } ∷ [];
      next_ticket = t + 1;
    }) in
    if ended
    then (b, refused)
    else (b', if is_some (find_lease t b'.leases) then leased t else blocked t)

pub cancel_waiter : ℕ → List Waiter → List Waiter
cancel_waiter t [] = []
cancel_waiter t (w ∷ ws) =
    if w.ticket == t then record w { cancelled = true } ∷ ws else w ∷ cancel_waiter t ws

-- The `ctx.Done()` branch of `Acquire`: a lease granted meanwhile goes back.
pub abandon : Broker → ℕ → Broker
abandon b t =
    if is_some (find_lease t b.leases)
    then release b t
    else dispatch (record b { waiters = cancel_waiter t b.waiters })

-- `Limit` and `InUse`, of a broker that may be nil.
abbrev pub limit_of : Option Broker → ℤ
limit_of none = pos 0
limit_of (some b) = b.limit

abbrev pub in_use_of : Option Broker → ℕ
in_use_of none = 0
in_use_of (some b) = b.in_use
