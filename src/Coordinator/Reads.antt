-- ===== src/Coordinator/Reads.antt =====
-- coordinator.py: what the adapters answer about their devices, and what is remembered of it.
use ha_device_links.Prelude.{
  Text, Dict, List, [], ◌∷◌, map, some, none, true, false, not, keep, contains, get, put, ◌==◌,
  list_eq, nat_eq, if◌then◌else◌,
}
use ha_device_links.Models.{
  Backend, backend_eq, backend_text, DeviceHandle, identity, DeviceCapabilities, Result,
}
use ha_device_links.Backends.{ObservedDevice}
use ha_device_links.Coordinator.State.{Coordinator, backend_for}
use ha_device_links.Coordinator.Holds.{flushed, start_flush}
use ha_device_links.Coordinator.Ownership.{resolve_ownership}

-- How the two calls of an adapter for one device end; an error is the name of its type.
pub data Reading : Type 0 where
  seen : (capabilities : DeviceCapabilities) (observed : ObservedDevice) → Reading
  unreadable : (error : Text) → Reading

-- How `async_devices` ends, with the readings of the devices that it lists.
pub data Listing : Type 0 where
  listed : (devices : List (DeviceHandle × Reading)) → Listing
  lost : (error : Text) → Listing

-- A set with an element added, and without one.
abbrev pub with_member : List Text → Text → List Text
with_member xs i = if contains xs i then xs else i ∷ xs

abbrev pub without_member : List Text → Text → List Text
without_member xs i = keep (λ x. not (x == i)) xs

-- `_note_error`
abbrev pub note_error : Text → Text → Coordinator → Coordinator
note_error backend error c = record c { last_error = some (backend, error) }

-- `_read_device` for a device whose adapter is loaded
unfoldable pub read_with : DeviceHandle → Reading → Coordinator → Coordinator
read_with h (unreadable error) c = record (note_error (backend_text h.backend) error c) {
  unavailable = with_member c.unavailable (identity h);
}
read_with h (seen capabilities observed) c = record c {
  handles = put c.handles (identity h) h;
  capabilities = put c.capabilities (identity h) capabilities;
  observed = put c.observed (identity h) observed;
  unavailable = without_member c.unavailable (identity h);
}

-- `_read_device`
unfoldable pub read_device : DeviceHandle → Reading → Coordinator → Coordinator
unfolding read_with backend_for
read_device h r c = elim (backend_for c h) [ none ↦ c | some _ ↦ read_with h r c ]

-- `_note_backend_lost` and `_note_backend_answering`, less what they log
abbrev pub note_backend_lost : Backend → Text → Coordinator → Coordinator
note_backend_lost backend error c = record (note_error (backend_text backend) error c) {
  backend_available = put c.backend_available backend false;
}

abbrev pub note_backend_answering : Backend → Coordinator → Coordinator
note_backend_answering backend c = record c {
  backend_available = put c.backend_available backend true;
}

unfoldable pub handles_on : Backend → Dict Text DeviceHandle → List Text
handles_on backend [] = []
handles_on backend ((i, h) ∷ handles) =
    let rest = handles_on backend handles in if h.backend == backend then i ∷ rest else rest

unfoldable pub add_members : List Text → List Text → List Text
add_members xs [] = xs
add_members xs (i ∷ is) = add_members (with_member xs i) is

-- `_mark_backend_unavailable`
unfoldable pub mark_backend_unavailable : Backend → Coordinator → Coordinator
unfolding handles_on add_members
mark_backend_unavailable backend c = record c {
  unavailable = add_members c.unavailable (handles_on backend c.handles);
}

unfoldable pub without {ℓ} : {A : Type ℓ} → List Text → Dict Text A → Dict Text A
without gone d = keep (λ e. not (contains gone e.0)) d

-- The loop of `_forget_unlisted`
unfoldable pub forget : List Text → Coordinator → Coordinator
unfolding without
forget gone c = record c {
  handles = without gone c.handles;
  capabilities = without gone c.capabilities;
  observed = without gone c.observed;
  unavailable = keep (λ i. not (contains gone i)) c.unavailable;
}

-- `_forget_unlisted`: an adapter that lists nothing is not believed.
unfoldable pub forget_unlisted : Backend → List Text → Coordinator → Coordinator
unfolding forget handles_on
forget_unlisted backend [] c = c
forget_unlisted backend (i ∷ is) c =
    forget (keep (λ j. not (contains (i ∷ is) j)) (handles_on backend c.handles)) c

-- The inner loop of `_read_all`
unfoldable pub read_listed : List (DeviceHandle × Reading) → Coordinator → Coordinator
unfolding read_device
read_listed [] c = c
read_listed ((h, r) ∷ rest) c =
    read_listed rest (read_device h r (record c { handles = put c.handles (identity h) h }))

abbrev pub listed_identities : List (DeviceHandle × Reading) → List Text
listed_identities devices = map (λ (e : DeviceHandle × Reading). identity e.0) devices

-- One round of the loop of `_read_all`
unfoldable pub read_backend : Backend → Listing → Coordinator → Coordinator
unfolding mark_backend_unavailable read_listed forget_unlisted
read_backend backend (lost error) c =
    mark_backend_unavailable backend (note_backend_lost backend error c)
read_backend backend (listed devices) c =
    forget_unlisted backend (listed_identities devices)
      (read_listed devices (note_backend_answering backend c))

-- `_read_all`, for what each adapter answers
unfoldable pub read_all : Dict Backend Listing → Coordinator → Coordinator
unfolding read_backend
read_all [] c = c
read_all ((backend, listing) ∷ rest) c = read_all rest (read_backend backend listing c)

-- `async_refresh` of everything, and of one device
unfoldable pub refresh_all : Dict Backend Listing → Coordinator → Result Coordinator
unfolding read_all
refresh_all answers c = resolve_ownership (read_all answers c)

unfoldable pub refresh_device : DeviceHandle → Reading → Coordinator → Result Coordinator
unfolding read_device
refresh_device h r c = resolve_ownership (read_device h r c)

-- The loop of `_flush_pending`: the readings of the devices that have a handle.
unfoldable pub read_pending : List (Text × Reading) → Coordinator → Coordinator
unfolding read_device
read_pending [] c = c
read_pending ((i, r) ∷ rest) c =
    read_pending rest (elim (get c.handles i) [ none ↦ c | some h ↦ read_device h r c ])

-- `_flush_pending`, with a reading for each device
unfoldable pub flush_pending : (Text → Reading) → Coordinator → Result Coordinator
unfolding read_pending flushed start_flush
flush_pending reading c =
    resolve_ownership (read_pending (map (λ i. (i, reading i)) (flushed c)) (start_flush c))
