-- ===== src/Docker/Frames.antt =====
-- internal/provider/docker_readiness.go: `boundedDockerFrames`, between the stream of the logs and
-- the library that takes its frames apart. The stream is the list of bytes that it will still give.
use runscaler.Base.{
  ℕ, zero, suc, ◌+◌, ◌-◌, ◌*◌, ◌%◌, ◌^◌, ◌==◌, min, Bool, true, false, ◌&&◌, ◌||◌, not, List, [],
  ◌∷◌, ◌++◌, length, ltb, if◌then◌else◌,
}
use runscaler.Docker.Marker.{drop}

unfoldable pub take : ℕ → List ℕ → List ℕ
take zero s = []
take (suc n) [] = []
take (suc n) (c ∷ s) = c ∷ take n s

pub record Frames : Type 0 where
  pub source : List ℕ
  -- The bytes of the header from `headerPos` on.
  pub header : List ℕ
  pub remaining : ℕ
  pub in_frame : Bool

pub data ReadResult : Type 0 where
  -- With an error of the source, or without.
  got : List ℕ → Bool → ReadResult
  ended invalid : ReadResult

abbrev pub max_docker_log_frame : ℕ
max_docker_log_frame = 1024 * 1024

abbrev pub big_endian : ℕ → ℕ → ℕ → ℕ → ℕ
big_endian a b c d = ((a * 256 + b) * 256 + c) * 256 + d

abbrev pub is_empty : List ℕ → Bool
is_empty [] = true
is_empty (c ∷ s) = false

-- Header bytes, as many as there is room for.
abbrev pub give_header : ℕ → Frames → Frames × ReadResult
give_header room r =
    let left = drop room r.header in
    (
      record r { header = left; in_frame = not (is_empty left && r.remaining == 0) },
      got (take room r.header) false,
    )

abbrev pub room_within : ℕ → ℕ → ℕ
room_within room remaining = if ltb remaining (room % 2 ^ 32) then remaining else room

-- `r.source.Read(p)`: the source gives at most as many bytes as it is asked for.
abbrev pub give_source : ℕ → Bool → ℕ → Frames → Frames × ReadResult
give_source most fails room r =
    let out = take (min most (room_within room r.remaining)) r.source in
    let left = (r.remaining + 2 ^ 32 - length out % 2 ^ 32) % 2 ^ 32 in
    (
      record r {
        source = drop (min most (room_within room r.remaining)) r.source;
        remaining = left;
        in_frame = not (left == 0);
      },
      got out fails,
    )

abbrev pub give : ℕ → Bool → ℕ → Frames → Frames × ReadResult
give most fails room r =
    if is_empty r.header then give_source most fails room r else give_header room r

-- The header of the next frame, read as a whole.
unfoldable pub next_frame : ℕ → Bool → ℕ → Frames → List ℕ → Frames × ReadResult
unfolding drop take
next_frame most fails room r (a ∷ b ∷ c ∷ d ∷ e ∷ f ∷ g ∷ h ∷ rest) =
    let size = big_endian e f g h in
    if ltb max_docker_log_frame size || not (b == 0) || not (c == 0) || not (d == 0)
    then (record r { source = rest; remaining = size }, invalid)
    else give most fails room (record {
      source = rest;
      header = a ∷ b ∷ c ∷ d ∷ e ∷ f ∷ g ∷ h ∷ [];
      remaining = size;
      in_frame = true;
    })
next_frame most fails room r _ = (record r { source = [] }, ended)

-- `Read` into `room` bytes. At the source it gets at most `most`, and `fails` is whether the source
-- returns an error with them.
unfoldable pub read : ℕ → Bool → ℕ → Frames → Frames × ReadResult
unfolding next_frame
read most fails room r =
    if room == 0
    then (r, got [] false)
    else if r.in_frame
    then give most fails room r
    else next_frame most fails room r r.source

-- A call of `Read` with what the source does.
pub record Ask : Type 0 where
  pub most : ℕ
  pub fails : Bool
  pub room : ℕ

abbrev pub new_frames : List ℕ → Frames
new_frames source = record { source = source; header = []; remaining = 0; in_frame = false }

-- The bytes of a read before those of the next ones, which are made where it has no error.
abbrev pub read_on : List ℕ → ReadResult → List ℕ
read_on next (got out true) = out
read_on next (got out false) = out ++ next
read_on next _ = []

-- What successive calls give, up to an error.
unfoldable pub read_all : List Ask → Frames → List ℕ
unfolding read
read_all [] r = []
read_all (a ∷ asks) r =
    let (r', result) = read a.most a.fails a.room r in read_on (read_all asks r') result
