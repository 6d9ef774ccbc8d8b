-- ===== src/Coordinator/Refreshed.antt =====
-- coordinator.py `async_refresh`: whatever the adapters answer, ownership is worked out again.
use ha_device_links.Prelude.{
  Text, Dict, List, [], ◌∷◌, Option, some, none, ◌≡◌, sym, subst, All, keep-All, put-All, contains,
  not, put, list_eq, nat_eq,
}
use ha_device_links.Models.{Backend, Capabilities, DeviceCapabilities, DeviceHandle, identity, ok}
use ha_device_links.Models.Validation.{IsRule}
use ha_device_links.Compiler.Expressed.{IsNetwork, HasGroups}
use ha_device_links.Backends.{SystemScope}
use ha_device_links.Storage.{StoredState, active_profile}
use ha_device_links.Coordinator.State.{Coordinator, backend_for}
use ha_device_links.Coordinator.Ownership.{rules_of}
use ha_device_links.Coordinator.Reads.{
  Reading, seen, unreadable, Listing, listed, lost, read_with, read_device,
  mark_backend_unavailable, without, forget, forget_unlisted, listed_identities, read_listed,
  read_backend, read_all, refresh_all,
}
use ha_device_links.Coordinator.Owned.{IsResolved, resolve_ownership-IsResolved}

-- What an adapter promises of a device that it reads: the capabilities are the device's, and no
-- control names an empty group.
abbrev pub IsReading : DeviceHandle → Reading → Type 0
IsReading h (seen capabilities observed) =
    (identity capabilities.handle ≡ identity h) × HasGroups capabilities
IsReading h (unreadable error) = Unit

abbrev pub IsListing : Listing → Type 0
IsListing (listed devices) = All (λ (e : DeviceHandle × Reading). IsReading e.0 e.1) devices
IsListing (lost error) = Unit

-- What compiling relies on.
abbrev pub IsReady : Coordinator → Type 0
IsReady c = IsNetwork c.capabilities × All IsRule (rules_of (active_profile c.state))

put-IsNetwork :
    (capabilities : Capabilities) (i : Text) (d : DeviceCapabilities)
    → identity d.handle ≡ i
    → HasGroups d
    → IsNetwork capabilities
    → IsNetwork (put capabilities i d)
put-IsNetwork capabilities i d key groups n = record {
  keyed =
      put-All (λ (e : Text × DeviceCapabilities). identity e.1.handle ≡ e.0) capabilities i d key
        n.keyed;
  grouped =
      put-All (λ (e : Text × DeviceCapabilities). HasGroups e.1) capabilities i d groups n.grouped;
}

without-IsNetwork :
    (gone : List Text) (capabilities : Capabilities)
    → IsNetwork capabilities
    → IsNetwork (without gone capabilities)
unfolding without
without-IsNetwork gone capabilities n = record {
  keyed =
      keep-All (λ (e : Text × DeviceCapabilities). identity e.1.handle ≡ e.0)
        (λ e. not (contains gone e.0)) capabilities n.keyed;
  grouped =
      keep-All (λ (e : Text × DeviceCapabilities). HasGroups e.1) (λ e. not (contains gone e.0))
        capabilities n.grouped;
}

read_with-IsReady :
    (h : DeviceHandle) (r : Reading) (c : Coordinator)
    → IsReading h r
    → IsReady c
    → IsReady (read_with h r c)
unfolding read_with
read_with-IsReady h (unreadable error) c k ready = ready
read_with-IsReady h (seen capabilities observed) c k ready =
    (put-IsNetwork c.capabilities (identity h) capabilities k.0 k.1 ready.0, ready.1)

read_device-IsReady :
    (h : DeviceHandle) (r : Reading) (c : Coordinator)
    → IsReading h r
    → IsReady c
    → IsReady (read_device h r c)
unfolding read_device
read_device-IsReady h r c k ready = go (backend_for c h)
  where
    go : (o : Option SystemScope) → IsReady (elim o [ none ↦ c | some _ ↦ read_with h r c ])
    go none = ready
    go (some b) = read_with-IsReady h r c k ready

read_listed-IsReady :
    (devices : List (DeviceHandle × Reading)) (c : Coordinator)
    → All (λ (e : DeviceHandle × Reading). IsReading e.0 e.1) devices
    → IsReady c
    → IsReady (read_listed devices c)
unfolding read_listed
read_listed-IsReady [] c k ready = ready
read_listed-IsReady ((h, r) ∷ rest) c k ready =
    read_listed-IsReady rest _ k.1
      (read_device-IsReady h r (record c { handles = put c.handles (identity h) h }) k.0 ready)

forget_unlisted-IsReady :
    (b : Backend) (is : List Text) (c : Coordinator) → IsReady c → IsReady (forget_unlisted b is c)
unfolding forget_unlisted forget
forget_unlisted-IsReady b [] c ready = ready
forget_unlisted-IsReady b (i ∷ is) c ready = (without-IsNetwork _ c.capabilities ready.0, ready.1)

read_backend-IsReady :
    (b : Backend) (l : Listing) (c : Coordinator)
    → IsListing l
    → IsReady c
    → IsReady (read_backend b l c)
unfolding read_backend mark_backend_unavailable
read_backend-IsReady b (lost error) c k ready = ready
read_backend-IsReady b (listed devices) c k ready =
    forget_unlisted-IsReady b (listed_identities devices) _ (read_listed-IsReady devices _ k ready)

read_all-IsReady :
    (answers : Dict Backend Listing) (c : Coordinator)
    → All (λ (e : Backend × Listing). IsListing e.1) answers
    → IsReady c
    → IsReady (read_all answers c)
unfolding read_all
read_all-IsReady [] c k ready = ready
read_all-IsReady ((b, l) ∷ rest) c k ready =
    read_all-IsReady rest (read_backend b l c) k.1 (read_backend-IsReady b l c k.0 ready)

-- From what is ready to be compiled, and whatever the adapters answer, an exception or a device that
-- cannot be read included, a refresh ends without an exception, and what it ends with is resolved and
-- ready again: if an adapter files capabilities under their own device, without empty groups.
pub refresh_all-IsResolved :
    (answers : Dict Backend Listing) (c : Coordinator)
    → All (λ (e : Backend × Listing). IsListing e.1) answers
    → IsReady c
    → (d : Coordinator) × (refresh_all answers c ≡ ok d)
      × IsResolved (read_all answers c) d
      × IsReady d
unfolding refresh_all
refresh_all-IsResolved answers c k ready =
    let (network, rules) = read_all-IsReady answers c k ready in
    let (d, e, r) = resolve_ownership-IsResolved (read_all answers c) network rules in
    (
      d,
      e,
      r,
      (
        subst IsNetwork (sym r.0) network,
        subst (λ (s : StoredState). All IsRule (rules_of (active_profile s))) (sym r.1) rules,
      ),
    )
