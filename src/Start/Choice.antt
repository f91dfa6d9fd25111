-- ===== src/Start/Choice.antt =====
-- Which back end `get_backend` of src/backend/manager.rs makes.
use flannel_ng.Base.{
  ℕ, ◌≡◌, ◌↔◌, refl, String, Bool, true, false, Option, none, some, arith, if◌then◌else◌,
}
use flannel_ng.Base.Outcome.{Outcome, ok, err, panic, out_of_fuel, backend_undefined}
use flannel_ng.HostGw
use flannel_ng.Iface.{ExternalInterface}
use flannel_ng.Start.{
  Backend, vxlan_backend, udp_backend, host_gw_backend, lower_eq, checked_host_gw, get_backend,
}

abbrev pub name_of : Backend → String
name_of vxlan_backend = "vxlan"
name_of udp_backend = "udp"
name_of host_gw_backend = "host-gw"

-- The host gateway needs the public address to be the one of the interface.
abbrev pub Fits : Backend → ExternalInterface → Type 0
Fits vxlan_backend ext_iface = Unit
Fits udp_backend ext_iface = Unit
Fits host_gw_backend ext_iface = ext_iface.ext_addr ≡ some ext_iface.iface_addr

vxlan_not_udp : (s : String) → lower_eq s "vxlan" ≡ true → lower_eq s "udp" ≡ false
unfolding lower_eq
vxlan_not_udp String.[] h = cc
vxlan_not_udp (String.◌∷◌ ch s) h = ground arith

vxlan_not_host_gw : (s : String) → lower_eq s "vxlan" ≡ true → lower_eq s "host-gw" ≡ false
unfolding lower_eq
vxlan_not_host_gw String.[] h = cc
vxlan_not_host_gw (String.◌∷◌ ch s) h = ground arith

udp_not_host_gw : (s : String) → lower_eq s "udp" ≡ true → lower_eq s "host-gw" ≡ false
unfolding lower_eq
udp_not_host_gw String.[] h = cc
udp_not_host_gw (String.◌∷◌ ch s) h = ground arith

new_iff :
    (ext_addr : Option ℕ) (iface_addr : ℕ)
    → (HostGw.new ext_addr iface_addr ≡ ok tt) ↔ (ext_addr ≡ some iface_addr)
unfolding HostGw.new
new_iff none iface_addr = (ground arith, ground arith)
new_iff (some a) iface_addr = (ground arith, ground arith)

checked-ok :
    (r : Outcome (Unit {0})) (b : Backend)
    → (checked_host_gw r ≡ ok b) ↔ ((r ≡ ok tt) × (b ≡ host_gw_backend))
checked-ok (ok u) b = ((λ h. (refl, cc h)), (λ (e, same). cc same))
checked-ok (err e) b = ((λ h. absurd (cc h)), (λ (e, same). absurd (cc e)))
checked-ok panic b = ((λ h. absurd (cc h)), (λ (e, same). absurd (cc e)))
checked-ok out_of_fuel b = ((λ h. absurd (cc h)), (λ (e, same). absurd (cc e)))

-- The tests in order, by their answers.
abbrev choice : (v u g : Bool) → Outcome (Unit {0}) → Outcome Backend
choice v u g fit =
    if v
    then ok vxlan_backend
    else if u
    then ok udp_backend
    else if g
    then checked_host_gw fit
    else err backend_undefined

-- The answer to the name of a back end.
abbrev answer : (v u g : Bool) → Backend → Bool
answer v u g vxlan_backend = v
answer v u g udp_backend = u
answer v u g host_gw_backend = g

abbrev Passes : Outcome (Unit {0}) → Backend → Type 0
Passes fit vxlan_backend = Unit
Passes fit udp_backend = Unit
Passes fit host_gw_backend = fit ≡ ok tt

choice_iff :
    (v u g : Bool) (fit : Outcome (Unit {0})) (b : Backend)
    → (v ≡ true → u ≡ false)
    → (v ≡ true → g ≡ false)
    → (u ≡ true → g ≡ false)
    → (choice v u g fit ≡ ok b) ↔ ((answer v u g b ≡ true) × Passes fit b)
choice_iff true u g fit vxlan_backend vu vg ug = ground arith
choice_iff true u g fit udp_backend vu vg ug = ground arith
choice_iff true u g fit host_gw_backend vu vg ug = ground arith
choice_iff false true g fit vxlan_backend vu vg ug = ground arith
choice_iff false true g fit udp_backend vu vg ug = ground arith
choice_iff false true g fit host_gw_backend vu vg ug = ground arith
choice_iff false false true fit vxlan_backend vu vg ug =
    ground (arith, checked-ok fit vxlan_backend)
choice_iff false false true fit udp_backend vu vg ug = ground (arith, checked-ok fit udp_backend)
choice_iff false false true fit host_gw_backend vu vg ug = (
  (λ h. (refl, ((checked-ok fit host_gw_backend).0 h).0)),
  (λ (e, passes). (checked-ok fit host_gw_backend).1 (passes, refl)),
)
choice_iff false false false fit vxlan_backend vu vg ug = ground arith
choice_iff false false false fit udp_backend vu vg ug = ground arith
choice_iff false false false fit host_gw_backend vu vg ug = ground arith

-- `get_backend` makes a back end exactly if the type in lower case is its name and, for the host
-- gateway, the external address of the interface is set and is the interface's own.
pub get_backend_iff :
    (backend_type : String) (ext_iface : ExternalInterface) (b : Backend)
    → (get_backend backend_type ext_iface ≡ ok b)
      ↔ ((lower_eq backend_type (name_of b) ≡ true) × Fits b ext_iface)
unfolding get_backend
get_backend_iff s ext_iface b = by_name b
  where
    chosen :
        (b : Backend)
        → (get_backend s ext_iface ≡ ok b) ↔ (
            (answer (lower_eq s "vxlan") (lower_eq s "udp") (lower_eq s "host-gw") b ≡ true)
            × Passes (HostGw.new ext_iface.ext_addr ext_iface.iface_addr) b)
    chosen b =
        choice_iff (lower_eq s "vxlan") (lower_eq s "udp") (lower_eq s "host-gw")
          (HostGw.new ext_iface.ext_addr ext_iface.iface_addr) b (vxlan_not_udp s)
          (vxlan_not_host_gw s) (udp_not_host_gw s)

    by_name :
        (b : Backend)
        → (get_backend s ext_iface ≡ ok b) ↔ ((lower_eq s (name_of b) ≡ true) × Fits b ext_iface)
    by_name vxlan_backend = chosen vxlan_backend
    by_name udp_backend = chosen udp_backend
    by_name host_gw_backend =
        let gateway = new_iff ext_iface.ext_addr ext_iface.iface_addr in
        let all = chosen host_gw_backend in
        ((λ h. ((all.0 h).0, gateway.0 (all.0 h).1)), (λ h. all.1 (h.0, gateway.1 h.1)))
