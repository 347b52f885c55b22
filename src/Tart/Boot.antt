-- ===== src/Tart/Boot.antt =====
-- `bootVM` of internal/provider/tart.go: the commands that it gives, one after the other.
use runscaler.Base.{
  ℕ, ◌≡◌, String, str_eq, Bool, true, false, ◌&&◌, ◌||◌, not, Option, none, some, List, [], ◌∷◌,
  ◌++◌, if◌then◌else◌,
}
use runscaler.Base.Int.{ℤ, pos, ltb_ℤ}

pub data Command : Type 0 where
  clone : String → String → Command
  configure : String → Option ℤ → Option ℤ → Command
  set_mac : String → ℕ → Command
  run : String → Command
  wait_for_exec : String → Command
  stop : String → Command
  delete : String → Command

pub record BootConfig : Type 0 where
  pub base_image : String
  pub cpu : ℤ
  pub memory : ℤ
  pub net_bridged : String

-- Whether a step succeeds.
pub record BootAnswers : Type 0 where
  pub cloned : Bool
  pub configured : Bool
  pub mac_set : Bool
  pub exec_ready : Bool

abbrev pub positive : ℤ → Option ℤ
positive n = if ltb_ℤ (pos 0) n then some n else none

abbrev pub has_resources : BootConfig → Bool
has_resources p = ltb_ℤ (pos 0) p.cpu || ltb_ℤ (pos 0) p.memory

-- From the start of the machine on.
abbrev pub boot_run : String → BootAnswers → List Command × Bool
boot_run name a =
    if a.exec_ready
    then (run name ∷ wait_for_exec name ∷ [], true)
    else (run name ∷ wait_for_exec name ∷ stop name ∷ delete name ∷ [], false)

abbrev pub after : List Command → List Command × Bool → List Command × Bool
after cs (ds, ok) = (cs ++ ds, ok)

-- Without a fixed address a machine behind NAT boots all the same.
abbrev pub boot_mac : BootConfig → String → ℕ → BootAnswers → List Command × Bool
boot_mac p name slot a =
    if not a.mac_set && not (str_eq p.net_bridged "")
    then (set_mac name slot ∷ delete name ∷ [], false)
    else after (set_mac name slot ∷ []) (boot_run name a)

abbrev pub boot_resources : BootConfig → String → ℕ → BootAnswers → List Command × Bool
boot_resources p name slot a =
    if has_resources p
    then if a.configured
      then after (configure name (positive p.cpu) (positive p.memory) ∷ []) (boot_mac p name slot a)
      else (configure name (positive p.cpu) (positive p.memory) ∷ delete name ∷ [], false)
    else boot_mac p name slot a

-- `bootVM` with its slot, and whether it returns a machine; `boot_end` is what becomes of the slot.
unfoldable pub boot_vm : BootConfig → String → ℕ → BootAnswers → List Command × Bool
boot_vm p name slot a =
    if a.cloned
    then after (clone p.base_image name ∷ []) (boot_resources p name slot a)
    else (clone p.base_image name ∷ [], false)

abbrev pub deletes : String → List Command → Bool
deletes name [] = false
deletes name (delete n ∷ cs) = str_eq n name || deletes name cs
deletes name (_ ∷ cs) = deletes name cs

abbrev pub stops : String → List Command → Bool
stops name [] = false
stops name (stop n ∷ cs) = str_eq n name || stops name cs
stops name (_ ∷ cs) = stops name cs

-- Nothing stands in the way of starting the clone.
abbrev pub starts : BootConfig → BootAnswers → Bool
starts p a =
    a.cloned && (a.configured || not (has_resources p)) && (a.mac_set || str_eq p.net_bridged "")

-- Whether a boot returns a machine, stops its clone, and deletes it.
abbrev pub Ends : String → Bool → Bool → Bool → List Command × Bool → Type 0
Ends name returned stopped deleted (cs, ok) =
    (ok ≡ returned) × (stops name cs ≡ stopped) × (deletes name cs ≡ deleted)
