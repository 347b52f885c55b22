-- ===== src/Docker/Passing.antt =====
-- `boundedDockerFrames` of internal/provider/docker_readiness.go changes nothing in the stream.
use runscaler.Base.{
  ℕ, zero, suc, ◌+◌, ◌-◌, ◌%◌, ◌^◌, ◌<◌, ◌≤◌, ◌==◌, min, ◌≡◌, refl, ap, sym, subst, All, ◌∙◌,
  Bool-cases, inl, inr, Bool, true, false, ◌&&◌, ◌||◌, not, List, [], ◌∷◌, ◌++◌, length, arith, ltb,
  if◌then◌else◌,
}
use mathlib.Core.List.{append_assoc}
use runscaler.Docker.Marker.{drop}
use runscaler.Docker.Frames.{
  take, Frames, ReadResult, max_docker_log_frame, big_endian, is_empty, room_within, give,
  next_frame, read, Ask, new_frames, read_on, read_all, got, ended, invalid,
}

take-drop : (n : ℕ) (s : List ℕ) → take n s ++ drop n s ≡ s
unfolding take drop
take-drop zero s = refl
take-drop (suc n) [] = refl
take-drop (suc n) (c ∷ s) = ap {B = List ℕ} (λ r. c ∷ r) (take-drop n s)

length-take : (n : ℕ) (s : List ℕ) → length (take n s) ≤ n
unfolding take
length-take zero s = omega arith
length-take (suc n) [] = omega arith
length-take (suc n) (c ∷ s) = omega (arith, length-take n s)

-- The bytes that are still to come.
abbrev pub held : Frames → List ℕ
held r = r.header ++ r.source

-- In a frame its rest is within the bound; between two frames no byte of a header is left.
abbrev pub Sound : Bool → List ℕ → ℕ → Type 0
Sound true header remaining = remaining ≤ max_docker_log_frame
Sound false header remaining = header ≡ []

abbrev pub IsSound : Frames → Type 0
IsSound r = Sound r.in_frame r.header r.remaining

-- What a read gives comes before what it leaves.
abbrev pub Passes : List ℕ → Frames × ReadResult → Type 0
Passes before (r, got out fails) = (before ≡ out ++ held r) × IsSound r
Passes before (r, ended) = Unit
Passes before (r, invalid) = Unit

left_over :
    (remaining most room l : ℕ)
    → remaining ≤ max_docker_log_frame
    → room < 2 ^ 32
    → l ≤ min most (room_within room remaining)
    → (remaining + 2 ^ 32 - l % 2 ^ 32) % 2 ^ 32 ≤ remaining
left_over remaining most room l h k b = ground (arith, h, k, b)

suc-not_zero : (n : ℕ) → (suc n == 0) ≡ false
suc-not_zero n = ground arith

header-Sound :
    (left : List ℕ) (remaining : ℕ)
    → remaining ≤ max_docker_log_frame
    → Sound (not (is_empty left && remaining == 0)) left remaining
header-Sound [] zero h = refl
header-Sound [] (suc n) h = rw (suc-not_zero n) h
header-Sound (c ∷ left) n h = h

body-Sound : (left : ℕ) → left ≤ max_docker_log_frame → Sound (not (left == 0)) [] left
body-Sound zero h = refl
body-Sound (suc n) h = rw (suc-not_zero n) h

give-Passes :
    (most : ℕ) (fails : Bool) (room : ℕ) (source header : List ℕ) (remaining : ℕ) (b : Bool)
    → room < 2 ^ 32
    → remaining ≤ max_docker_log_frame
    → Passes (header ++ source) (
        give most fails room
          (record { source = source; header = header; remaining = remaining; in_frame = b }))
give-Passes most fails room source [] remaining b k h =
    let n = min most (room_within room remaining) in
    (
      sym (take-drop n source),
      body-Sound _ (
          omega (
            arith,
            h,
            left_over remaining most room (length (take n source)) h k (length-take n source),
          )),
    )
give-Passes most fails room source (c ∷ header) remaining b k h = (
  ap (λ l. l ++ source) (sym (take-drop room (c ∷ header)))
      ∙ append_assoc (take room (c ∷ header)) (drop room (c ∷ header)) source,
  header-Sound (drop room (c ∷ header)) remaining h,
)

next_frame-Passes :
    (most : ℕ) (fails : Bool) (room : ℕ) (r : Frames) (source : List ℕ)
    → room < 2 ^ 32
    → Passes source (next_frame most fails room r source)
unfolding next_frame
next_frame-Passes most fails room r (a ∷ b ∷ c ∷ d ∷ e ∷ f ∷ g ∷ h ∷ rest) k =
    let size = big_endian e f g h in
    elim (Bool-cases
      (ltb max_docker_log_frame size || not (b == 0) || not (c == 0) || not (d == 0))) [
        | inl bad ↦ rw bad tt
        | inr good ↦ rw good (
            give-Passes most fails room rest (a ∷ b ∷ c ∷ d ∷ e ∷ f ∷ g ∷ h ∷ []) size true k
              (ground (arith, good)))
      ]
next_frame-Passes most fails room r [] k = tt
next_frame-Passes most fails room r (_ ∷ []) k = tt
next_frame-Passes most fails room r (_ ∷ _ ∷ []) k = tt
next_frame-Passes most fails room r (_ ∷ _ ∷ _ ∷ []) k = tt
next_frame-Passes most fails room r (_ ∷ _ ∷ _ ∷ _ ∷ []) k = tt
next_frame-Passes most fails room r (_ ∷ _ ∷ _ ∷ _ ∷ _ ∷ []) k = tt
next_frame-Passes most fails room r (_ ∷ _ ∷ _ ∷ _ ∷ _ ∷ _ ∷ []) k = tt
next_frame-Passes most fails room r (_ ∷ _ ∷ _ ∷ _ ∷ _ ∷ _ ∷ _ ∷ []) k = tt

either_frame :
    (most : ℕ) (fails : Bool) (room : ℕ) (source header : List ℕ) (remaining : ℕ) (b : Bool)
    → room < 2 ^ 32
    → Sound b header remaining
    → let r : Frames = record {
      source = source;
      header = header;
      remaining = remaining;
      in_frame = b;
    } in
      Passes (held r) (if b then give most fails room r else next_frame most fails room r source)
either_frame most fails room source header remaining true k h =
    give-Passes most fails room source header remaining true k h
either_frame most fails room source header remaining false k h =
    let r : Frames = record {
      source = source;
      header = header;
      remaining = remaining;
      in_frame = false;
    } in
    subst (λ l. Passes (l ++ source) (next_frame most fails room r source)) (sym h)
      (next_frame-Passes most fails room r source k)

-- One `Read` of a reader in a sound state, into fewer than 2^32 bytes, loses, adds and reorders no
-- byte of the stream, unless it returns an error of its own; and the frame that it is in then has
-- at most a mebibyte left.
read-Passes :
    (most : ℕ) (fails : Bool) (room : ℕ) (r : Frames)
    → room < 2 ^ 32
    → IsSound r
    → Passes (held r) (read most fails room r)
unfolding read
read-Passes most fails room r k h = elim (Bool-cases (room == 0)) [
  | inl full ↦ rw full (refl, h)
  | inr room_left ↦
      rw room_left (either_frame most fails room r.source r.header r.remaining r.in_frame k h)
]

abbrev pub Fits : Ask → Type 0
Fits a = a.room < 2 ^ 32

read_on_prefix :
    (before next : List ℕ) (r : Frames) (result : ReadResult)
    → Passes before (r, result)
    → (IsSound r → (rest : List ℕ) × (held r ≡ next ++ rest))
    → (rest : List ℕ) × (before ≡ read_on next result ++ rest)
read_on_prefix before next r (got out true) h goes = (held r, h.0)
read_on_prefix before next r (got out false) h goes =
    let (rest, e) = goes h.1 in
    (rest, h.0 ∙ (ap (λ l. out ++ l) e ∙ sym (append_assoc out next rest)))
read_on_prefix before next r ended h goes = (before, refl)
read_on_prefix before next r invalid h goes = (before, refl)

read_all_prefix :
    (asks : List Ask) (r : Frames)
    → All Fits asks
    → IsSound r
    → (rest : List ℕ) × (held r ≡ read_all asks r ++ rest)
unfolding read_all
read_all_prefix [] r fits h = (held r, refl)
read_all_prefix (a ∷ asks) r fits h =
    let (r', result) = read a.most a.fails a.room r in
    read_on_prefix (held r) (read_all asks r') r' result
      (read-Passes a.most a.fails a.room r fits.0 h) (read_all_prefix asks r' fits.1)

-- What `boundedDockerFrames` passes on is a prefix of the stream, whatever the lengths of the reads
-- and of what the source gives at each, where no read is into 2^32 bytes or more.
pub new_frames-prefix :
    (asks : List Ask) (source : List ℕ)
    → All Fits asks
    → (rest : List ℕ) × (source ≡ read_all asks (new_frames source) ++ rest)
new_frames-prefix asks source fits = read_all_prefix asks (new_frames source) fits refl
