-- ===== src/Docker/Examples.antt =====
-- A container that starts, writes the marker in two parts and keeps running.
use runscaler.Base.{arith, true, false, ℕ, List, [], ◌++◌, ◌∷◌, some, ◌≡◌}
use runscaler.Docker.Marker.{
  contains, write_all, new_writer, ready_marker, joined, write_all-contains,
}
use runscaler.Docker.{Inspected, inspected, stdout, Event, deadline, marker, tick, output}
use runscaler.Docker.Frames.{Ask, new_frames, read_all}
use runscaler.Docker.Passing.{new_frames-prefix}

-- "Listening" and " for Jobs"
abbrev parts : List (List ℕ)
parts =
    (76 ∷ 105 ∷ 115 ∷ 116 ∷ 101 ∷ 110 ∷ 105 ∷ 110 ∷ 103 ∷ [])
    ∷ (32 ∷ 102 ∷ 111 ∷ 114 ∷ 32 ∷ 74 ∷ 111 ∷ 98 ∷ 115 ∷ [])
    ∷ []

abbrev events : List Event
events =
    tick (some true) 1
    ∷ output stdout (66 ∷ 76 ∷ 105 ∷ 115 ∷ 116 ∷ 101 ∷ 110 ∷ 105 ∷ 110 ∷ 103 ∷ [])
    ∷ tick (some true) 2
    ∷ output stdout (32 ∷ 102 ∷ 111 ∷ 114 ∷ 32 ∷ 74 ∷ 111 ∷ 98 ∷ 115 ∷ 10 ∷ [])
    ∷ marker 3
    ∷ tick (some true) 4
    ∷ tick (some true) 9
    ∷ deadline false
    ∷ []

abbrev running : Inspected
running = inspected (some true) true

write_all-contains_example :
    (write_all ready_marker new_writer parts).found ≡ contains ready_marker (joined parts)
write_all-contains_example = write_all-contains parts

-- A frame of two bytes.
abbrev frame : List ℕ
frame = 1 ∷ 0 ∷ 0 ∷ 0 ∷ 0 ∷ 0 ∷ 0 ∷ 2 ∷ 72 ∷ 105 ∷ []

abbrev asks : List Ask
asks =
    record { most = 9; fails = false; room = 5 }
    ∷ record { most = 9; fails = false; room = 5 }
    ∷ record { most = 9; fails = true; room = 1 }
    ∷ []

new_frames-prefix_example : (rest : List ℕ) × (frame ≡ read_all asks (new_frames frame) ++ rest)
new_frames-prefix_example =
    new_frames-prefix asks frame (omega arith, (omega arith, (omega arith, tt)))
