-- ===== src/Tart/Network.antt =====
-- internal/provider/tart_network.go: the network of the guest. `strings.Fields`, `strings.TrimSpace`
-- and the regular expression of a network service are parameters. `none` is a failed command.
use runscaler.Base.{
  ℕ, zero, suc, ◌+◌, ◌^◌, String, str_eq, Bool, true, false, ◌&&◌, ◌||◌, not, Option, none, some,
  is_some, List, [], ◌∷◌, ◌++◌, get_elem?, ltb, if◌then◌else◌,
}
use runscaler.Base.Int.{ℤ, pos, negsuc, leb_ℤ, ltb_ℤ}
use runscaler.Base.Strings.{◌<>◌, split, cut_suffix, has_prefix, trim_prefix}
use runscaler.Bytesize.{value_from}
use runscaler.Config.Settings.{TartConfig}

pub record Texts : Type 0 where
  pub fields : String → List String
  pub trim_space : String → String
  -- What is matched behind the number of a service.
  pub service_line : String → Option String

pub record RouteInfo : Type 0 where
  pub interface : String
  pub mtu : ℤ

pub data GuestCommand : Type 0 where
  get_guest_route list_services : GuestCommand
  set_mtu : String → ℤ → GuestCommand
  set_dns : String → List String → GuestCommand

abbrev pub negated : ℕ → ℤ
negated zero = pos 0
negated (suc n) = negsuc n

abbrev pub unsigned : String → Option ℕ
unsigned s = if str_eq s "" then none else value_from 0 s

abbrev pub within : ℕ → (ℕ → ℤ) → Option ℕ → Option ℤ
within bound sign none = none
within bound sign (some n) = if ltb n bound then some (sign n) else none

-- `strconv.Atoi`, on 64 bits.
unfoldable pub atoi : String → Option ℤ
unfolding value_from
atoi s =
    if has_prefix s "-"
    then within (2 ^ 63 + 1) negated (unsigned (trim_prefix s "-"))
    else within (2 ^ 63) pos (unsigned (trim_prefix s "+"))

abbrev pub index_at : Bool → Option ℕ → Option ℕ
index_at true rest = some 0
index_at false none = none
index_at false (some i) = some (suc i)

unfoldable pub index : List String → String → Option ℕ
index [] x = none
index (y ∷ ys) x = index_at (str_eq y x) (index ys x)

abbrev pub with_interface : List String → RouteInfo → RouteInfo
with_interface (key ∷ value ∷ []) info =
    if str_eq key "interface:" then record info { interface = value } else info
with_interface _ info = info

abbrev pub or_keep : RouteInfo → Option ℤ → RouteInfo
or_keep info none = info
or_keep info (some mtu) = record info { mtu = mtu }

abbrev pub value_at : RouteInfo → Option String → RouteInfo
value_at info none = info
value_at info (some value) = or_keep info (atoi value)

module _ (x : Texts) where
  open x use {fields, trim_space, service_line}

  -- The column of the MTU, and the lines after the header row.
  abbrev pub with_mtu : Option ℕ → List String → RouteInfo → RouteInfo
  with_mtu (some column) (line ∷ rest) info = value_at info (get_elem? (fields line) column)
  with_mtu _ _ info = info

  unfoldable pub scan_route : List String → RouteInfo → RouteInfo
  unfolding index atoi
  scan_route [] info = info
  scan_route (line ∷ rest) info =
      scan_route rest
        (with_mtu (index (fields line) "mtu") rest (with_interface (fields line) info))

  unfoldable pub parse_route_get : String → Option RouteInfo
  unfolding scan_route split
  parse_route_get out =
      let info = scan_route (split "\n" out) (record { interface = ""; mtu = pos 0 }) in
      if str_eq info.interface "" then none else some info

  -- What is applied of a parsed route.
  abbrev pub mtu_of : Option RouteInfo → ℤ
  mtu_of none = pos 0
  mtu_of (some route) =
      if leb_ℤ route.mtu (pos 0) || leb_ℤ (pos 1500) route.mtu then pos 0 else route.mtu

  abbrev pub route_in : Option String → Option RouteInfo
  route_in none = none
  route_in (some out) = parse_route_get out

  -- `guestMTU`, without its reason.
  unfoldable pub guest_mtu : TartConfig → String → (String → Option String) → ℤ
  unfolding parse_route_get
  guest_mtu tc github_host route_of =
      if ltb_ℤ tc.mtu (pos 0)
      then pos 0
      else if ltb_ℤ (pos 0) tc.mtu
      then tc.mtu
      else if not (str_eq tc.net_bridged "")
      then pos 0
      else mtu_of
          (route_in (route_of (if str_eq github_host "" then "github.com" else github_host)))

  unfoldable pub service_in : String → String → List String → Option String
  unfolding cut_suffix
  service_in device service [] = none
  service_in device service (l ∷ lines) =
      let line = trim_space l in
      let found =
        not (str_eq service "") && is_some (cut_suffix line ("Device: " <> (device <> ")"))) in
      let rest = service_in device service lines in
      elim (service_line line) [
        | some name ↦ service_in device name lines
        | none ↦ if found then some service else rest
      ]

  unfoldable pub network_service_for_device : String → String → Option String
  unfolding service_in split
  network_service_for_device out device = service_in device "" (split "\n" out)

  -- The commands in the guest, in their order.
  abbrev pub device_of : Option RouteInfo → String
  device_of none = "en0"
  device_of (some route) = route.interface

  abbrev pub service_set : List String → Option String → List GuestCommand
  service_set dns none = []
  service_set dns (some service) = set_dns service dns ∷ []

  abbrev pub services_in : String → Option String → Option String
  services_in device none = none
  services_in device (some out) = network_service_for_device out device

  abbrev pub set_guest_dns : List String → String → Option String → List GuestCommand
  set_guest_dns [] device services = []
  set_guest_dns (d ∷ dns) device services =
      list_services ∷ service_set (d ∷ dns) (services_in device services)

  abbrev pub mtu_set : String → ℤ → List GuestCommand
  mtu_set device mtu = if ltb_ℤ (pos 0) mtu then set_mtu device mtu ∷ [] else []

  abbrev pub nothing_to_set : ℤ → List String → Bool
  nothing_to_set mtu [] = leb_ℤ mtu (pos 0) && leb_ℤ (pos 0) mtu
  nothing_to_set mtu (d ∷ dns) = false

  unfoldable pub configure_guest_network :
      TartConfig
      → String
      → (String → Option String)
      → Option String
      → Option String
      → List GuestCommand
  unfolding guest_mtu network_service_for_device
  configure_guest_network tc github_host route_of guest_route services =
      let mtu = guest_mtu tc github_host route_of in
      let device = device_of (route_in guest_route) in
      if nothing_to_set mtu tc.dns
      then []
      else get_guest_route ∷ (mtu_set device mtu ++ set_guest_dns tc.dns device services)
