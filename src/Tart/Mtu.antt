-- ===== src/Tart/Mtu.antt =====
-- What is set in a guest's network, for a scale set that `Validate` accepts.
use runscaler.Base.{
  ◌≡◌, refl, ◌⊎◌, inl, inr, String, true, false, ◌&&◌, ◌||◌, not, Bool-cases, Option, none, some,
  List, [], ◌∷◌, All, All-append, arith, str_eq, if◌then◌else◌,
}
use runscaler.Base.Int.{ℤ, pos, negsuc, leb_ℤ, ltb_ℤ}
use runscaler.Config.Settings.{TartConfig}
use runscaler.Config.DiskGuard.{passes}
use runscaler.Config.Validate.{Host, validate_tart}
use runscaler.Tart.Network.{
  Texts, RouteInfo, GuestCommand, set_mtu, mtu_of, route_in, guest_mtu, configure_guest_network,
  mtu_set, set_guest_dns, service_set, services_in, nothing_to_set, device_of,
}

-- Positive and at most 1500.
abbrev pub IsMtu : ℤ → Type 0
IsMtu mtu = (ltb_ℤ (pos 0) mtu ≡ true) × (leb_ℤ mtu (pos 1500) ≡ true)

-- The command sets no other MTU.
abbrev pub SetsMtu : GuestCommand → Type 0
SetsMtu (set_mtu device mtu) = IsMtu mtu
SetsMtu command = Unit

small-IsMtu : (m : ℤ) → (leb_ℤ m (pos 0) || leb_ℤ (pos 1500) m) ≡ false → IsMtu m
small-IsMtu (pos n) h = (ground (arith, h), ground (arith, h))
small-IsMtu (negsuc n) h = absurd (ground (arith, h))

mtu_of-IsMtu :
    (x : Texts) (route : Option RouteInfo) → (mtu_of x route ≡ pos 0) ⊎ IsMtu (mtu_of x route)
mtu_of-IsMtu x none = inl refl
mtu_of-IsMtu x (some route) =
    elim (Bool-cases (leb_ℤ route.mtu (pos 0) || leb_ℤ (pos 1500) route.mtu)) [
      | inl other ↦ rw other (inl refl)
      | inr fits ↦ rw fits (inr (small-IsMtu route.mtu fits))
    ]

-- A positive MTU that `Validate` accepts.
accepted-IsMtu :
    (m : ℤ)
    → (not (leb_ℤ (pos 0) m && leb_ℤ m (pos 0))
        && not (leb_ℤ (negsuc 0) m && leb_ℤ m (negsuc 0))
        && (ltb_ℤ m (pos 1280) || ltb_ℤ (pos 1500) m))
      ≡ false
    → ltb_ℤ (pos 0) m ≡ true
    → IsMtu m
accepted-IsMtu (pos n) h k = (k, ground (arith, h, k))
accepted-IsMtu (negsuc n) h k = absurd (ground (arith, k))

guest_mtu-IsMtu :
    (x : Texts) (h : Host) (max_runners : ℤ) (tc : TartConfig) (host : String)
    (route_of : String → Option String)
    → validate_tart h max_runners tc ≡ none
    → (guest_mtu x tc host route_of ≡ pos 0) ⊎ IsMtu (guest_mtu x tc host route_of)
unfolding guest_mtu
guest_mtu-IsMtu x h max_runners tc host route_of valid =
    let (_, h1) = passes _ _ _ valid in
    let (_, h2) = passes _ _ _ h1 in
    let (mtu, _) = passes _ _ _ h2 in
    elim (Bool-cases (ltb_ℤ tc.mtu (pos 0))) [
      | inl off ↦ rw off (inl refl)
      | inr on ↦ elim (Bool-cases (ltb_ℤ (pos 0) tc.mtu)) [
        | inl fixed ↦ rw (on, fixed) (inr (accepted-IsMtu tc.mtu mtu fixed))
        | inr automatic ↦ elim (Bool-cases (not (str_eq tc.net_bridged ""))) [
          | inl bridged ↦ rw (on, automatic, bridged) (inl refl)
          | inr nat ↦
              rw (on, automatic, nat)
                (mtu_of-IsMtu x
                  (route_in x (route_of (if str_eq host "" then "github.com" else host))))
        ]
      ]
    ]

service_set-SetsMtu :
    (x : Texts) (dns : List String) (s : Option String) → All SetsMtu (service_set x dns s)
service_set-SetsMtu x dns none = tt
service_set-SetsMtu x dns (some s) = (tt, tt)

set_guest_dns-SetsMtu :
    (x : Texts) (dns : List String) (device : String) (services : Option String)
    → All SetsMtu (set_guest_dns x dns device services)
set_guest_dns-SetsMtu x [] device services = tt
set_guest_dns-SetsMtu x (d ∷ dns) device services =
    (tt, service_set-SetsMtu x (d ∷ dns) (services_in x device services))

mtu_set-SetsMtu :
    (x : Texts) (device : String) (m : ℤ) → (m ≡ pos 0) ⊎ IsMtu m → All SetsMtu (mtu_set x device m)
mtu_set-SetsMtu x device m (inl e) = rw e tt
mtu_set-SetsMtu x device m (inr fits) = rw fits.0 (fits, tt)

-- Whatever the host and the guest answer, the commands by which the network of a guest is set up,
-- for settings of Tart that `Validate` accepts, set no MTU but one from 1 to 1500.
pub configure_guest_network-SetsMtu :
    (x : Texts) (h : Host) (max_runners : ℤ) (tc : TartConfig) (host : String)
    (route_of : String → Option String) (guest_route services : Option String)
    → validate_tart h max_runners tc ≡ none
    → All SetsMtu (configure_guest_network x tc host route_of guest_route services)
unfolding configure_guest_network
configure_guest_network-SetsMtu x h max_runners tc host route_of guest_route services valid =
    let mtu = guest_mtu x tc host route_of in
    let device = device_of x (route_in x guest_route) in
    elim (Bool-cases (nothing_to_set x mtu tc.dns)) [
      | inl idle ↦ rw idle tt
      | inr busy ↦ rw busy (
        tt,
        All-append SetsMtu (mtu_set x device mtu) (set_guest_dns x tc.dns device services)
            (mtu_set-SetsMtu x device mtu (guest_mtu-IsMtu x h max_runners tc host route_of valid))
            (set_guest_dns-SetsMtu x tc.dns device services),
      )
    ]
