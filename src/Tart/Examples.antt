-- ===== src/Tart/Examples.antt =====
-- Runs of a host with two slots.
use runscaler.Base.{
  ◌≤◌, not, map, ◌+◌, ◌≡◌, refl, true, false, [], ◌∷◌, length, All, Option, none, some, String,
  ◌&&◌, ltb, if◌then◌else◌,
}
use runscaler.Base.Int.{pos}
use runscaler.Tart.{
  new_vm, booted, no_answer, change, update_vm, Coordinator, new_coordinator, acquire, boot_end,
  destroy_vm, vm_exits,
}
use runscaler.Tart.Conserves.{holders}
use runscaler.Tart.Slots.{
  Reach, here, next, acquires, boots, destroys, DistinctSlots, running, Reach-DistinctSlots,
}
use runscaler.Base.Strings.{split}
use runscaler.Bytesize.{value_from}
use runscaler.Config.Examples.{host, scale_set}
use runscaler.Config.Settings.{TartConfig}
use runscaler.Config.DiskGuard.{refuse}
use runscaler.Config.Validate.{validate_tart}
use runscaler.Tart.Network.{
  Texts, guest_mtu, parse_route_get, scan_route, index, atoi, configure_guest_network,
}
use runscaler.Tart.Mtu.{SetsMtu, configure_guest_network-SetsMtu}
use runscaler.Tart.Boot.{BootConfig, BootAnswers}

abbrev one_taken : Coordinator
one_taken = record { slots = 1 ∷ []; vms = new_vm 0 "a" 0 ∷ []; next_id = 1 }

abbrev both_taken : Coordinator
both_taken = record { slots = []; vms = new_vm 1 "b" 1 ∷ one_taken.vms; next_id = 2 }

both_taken-Reach : Reach (new_coordinator 2) both_taken
unfolding new_coordinator acquire
both_taken-Reach = next (next here (acquires one_taken "a" refl)) (acquires both_taken "b" refl)

-- The second machine fails to boot, the first one is started on and cannot be stopped.
abbrev later : Coordinator
later = destroy_vm (boot_end (boot_end both_taken 1 (no_answer false false)) 0 booted) 0 false false

later-Reach : Reach (new_coordinator 2) later
later-Reach =
    next (next (next both_taken-Reach (boots 1 (no_answer false false))) (boots 0 booted))
      (destroys 0 false false)

Reach-DistinctSlots_example :
    DistinctSlots (running later.vms)
    × (length (running later.vms) ≤ (if ltb 2 1 then 1 else 2))
    × (length later.slots + holders later.vms ≡ (if ltb 2 1 then 1 else 2))
Reach-DistinctSlots_example = Reach-DistinctSlots 2 later later-Reach

later-kept : (length later.slots ≡ 1) × (length (vm_exits later 0).slots ≡ 2)
unfolding destroy_vm boot_end change update_vm vm_exits
later-kept = (refl, refl)

-- The slot of the machine that was given up is free, though it may run still.
later-abandoned : map (λ v. v.abandoned && v.released && not v.exited) later.vms ≡ true ∷ false ∷ []
unfolding destroy_vm boot_end change update_vm
later-abandoned = refl

abbrev bridged : BootConfig
bridged = record { base_image = "macos"; cpu = pos 4; memory = pos 0; net_bridged = "en0" }

abbrev no_mac : BootAnswers
no_mac = record { cloned = true; configured = true; mac_set = false; exec_ready = true }

abbrev words : Texts
words = record { fields = split " "; trim_space = λ s. s; service_line = λ s. none }

abbrev mac : TartConfig
mac = (scale_set "mac" "tart").tart

-- The host's route goes through a tunnel.
abbrev tunnel : Option String
tunnel = some "interface: utun4\nflags mtu\nUP 1280"

tunnel_mtu : guest_mtu words mac "github.com" (λ host. tunnel) ≡ pos 1280
unfolding guest_mtu parse_route_get scan_route index atoi split value_from
tunnel_mtu = refl

mac-validated : validate_tart host (pos 1) mac ≡ none
unfolding refuse
mac-validated = refl

configure_guest_network-SetsMtu_example :
    All SetsMtu (configure_guest_network words mac "github.com" (λ host. tunnel) none none)
configure_guest_network-SetsMtu_example =
    configure_guest_network-SetsMtu words host (pos 1) mac "github.com" (λ host. tunnel) none none
      mac-validated
