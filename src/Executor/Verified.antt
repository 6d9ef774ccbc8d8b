-- ===== src/Executor/Verified.antt =====
-- executor.py `_verify`: what is reported as written was read back from the device.
use ha_device_links.Prelude.{
  ℕ, zero, suc, Text, List, [], ◌∷◌, map, Option, some, none, Bool, true, false, ◌≡◌, refl, sym,
  ◌∙◌, inl, inr, arith, Bool-cases, Memᴰ, head, tail, mem_keep, map-mem, mem→contains, contains,
  Distinct, keep, ◌==◌, nat_eq, nat_beq, nat_beq_iff, if◌then◌else◌,
}
use mathlib.Core.Option
use ha_device_links.Models.{add, op_eq}
use ha_device_links.Backends.{ObservedDevice}
use ha_device_links.Executor.Types.{Op, Job, Write, get_op, update_op, set_op, is_verifiable}
use ha_device_links.Executor.Device.{
  verified, verified_as, verify_each, verify, is_pending, is_present, differ,
}
use ha_device_links.Executor.Progress.{map-eq-some}

get_op-update_op :
    (ops : List Op) (i k : ℕ) (f : Op → Op)
    → get_op (update_op ops i f) k
      ≡ (if nat_beq i k then Option.map f (get_op ops k) else get_op ops k)
unfolding update_op
get_op-update_op [] i k f = ground arith
get_op-update_op (o ∷ ops) zero zero f = refl
get_op-update_op (o ∷ ops) zero (suc k) f = ground arith
get_op-update_op (o ∷ ops) (suc i) zero f = ground arith
get_op-update_op (o ∷ ops) (suc i) (suc k) f = ground (arith, get_op-update_op ops i k f)

abbrev pub positions : List Write → List ℕ
positions ws = map (λ (w : Write). w.op) ws

differ-eq : (a b : Bool) → differ a b ≡ false → a ≡ b
differ-eq a b h = ground arith

apart_of :
    (v w : Write) (ws : List Write)
    → contains (positions ws) v.op ≡ false
    → Memᴰ w ws
    → nat_beq v.op w.op ≡ false
apart_of v w ws h m = elim (Bool-cases (nat_beq v.op w.op)) [
  | inr apart ↦ apart
  | inl same ↦
      let found : contains (positions ws) w.op ≡ true =
        mem→contains (positions ws) w.op (map-mem (λ (w : Write). w.op) ws m) in
      let e : v.op ≡ w.op = (nat_beq_iff v.op w.op).0 same in
      let there : contains (positions ws) v.op ≡ true = rw e found in cc (there, h)
]

contains-keep-positions :
    (p : Write → Bool) (ws : List Write) (i : ℕ)
    → contains (positions ws) i ≡ false
    → contains (positions (keep p ws)) i ≡ false
unfolding contains keep
contains-keep-positions p [] i h = refl
contains-keep-positions p (w ∷ ws) i h = ground (arith, h, contains-keep-positions p ws i)

Distinct-keep-positions :
    (p : Write → Bool) (ws : List Write)
    → Distinct (positions ws)
    → Distinct (positions (keep p ws))
unfolding keep
Distinct-keep-positions p [] h = tt
Distinct-keep-positions p (w ∷ ws) h = elim (Bool-cases (p w)) [
  | inl t ↦ rw t (contains-keep-positions p ws w.op h.0, Distinct-keep-positions p ws h.1)
  | inr f ↦ rw f (Distinct-keep-positions p ws h.1)
]

skipped-positions :
    (p : Write → Bool) (ws : List Write) (w : Write)
    → Distinct (positions ws)
    → Memᴰ w ws
    → p w ≡ false
    → contains (positions (keep p ws)) w.op ≡ false
unfolding keep contains
skipped-positions p [] w h m f = elim m [ ]
skipped-positions p (v ∷ ws) w h (head e) f =
    let f' : p v ≡ false = rw (← e) f in rw f' (rw e (contains-keep-positions p ws v.op h.0))
skipped-positions p (v ∷ ws) w h (tail m) f = elim (Bool-cases (p v)) [
  | inl t ↦ rw (t, apart_of v w ws h.0 m) (skipped-positions p ws w h.1 m f)
  | inr g ↦ rw g (skipped-positions p ws w h.1 m f)
]

-- The device was read from the device itself, and holds the link exactly if it was to be added.
abbrev pub IsReadBack : Option ObservedDevice → Text → Write → Op → Type 0
IsReadBack d now w op =
    (o : ObservedDevice) × (d ≡ some o)
    × (o.deep_verified ≡ true)
    × (is_present o w ≡ (op.item.op == add))
    × (op.verified_at ≡ some now)

verified_as-IsReadBack :
    (o : ObservedDevice) (differs deep : Bool) (now : Text) (w : Write) (op : Op)
    → differ (is_present o w) (op.item.op == add) ≡ differs
    → o.deep_verified ≡ deep
    → is_verifiable (verified_as differs deep o.deep_verify_skipped_reason now w op).outcome ≡ true
    → IsReadBack (some o) now w (verified_as differs deep o.deep_verify_skipped_reason now w op)
unfolding verified_as
verified_as-IsReadBack o true deep now w op p q h = cc h
verified_as-IsReadBack o false false now w op p q h = cc h
verified_as-IsReadBack o false true now w op p q h =
    (o, refl, q, differ-eq (is_present o w) (op.item.op == add) p, refl)

verified-IsReadBack :
    (d : Option ObservedDevice) (now : Text) (w : Write) (op : Op)
    → is_verifiable (verified d now w op).outcome ≡ true
    → IsReadBack d now w (verified d now w op)
unfolding verified
verified-IsReadBack none now w op h = cc h
verified-IsReadBack (some o) now w op h = verified_as-IsReadBack o _ _ now w op refl refl h

module _ (d : Option ObservedDevice) (now : Text) where
  -- A write at another position leaves an operation as it is.
  verify_each-other :
      (ws : List Write) (j : Job) (i : ℕ)
      → contains (positions ws) i ≡ false
      → get_op (verify_each d now ws j).ops i ≡ get_op j.ops i
  unfolding verify_each contains
  verify_each-other [] j i h = refl
  verify_each-other (w ∷ ws) j i h =
      let apart : nat_beq w.op i ≡ false = ground (arith, h) in
      verify_each-other ws (set_op j w.op (verified d now w)) i (ground (arith, h))
      ∙ get_op-update_op j.ops w.op i (verified d now w)
      ∙ rw apart refl

  verify_each-at :
      (ws : List Write) (j : Job) (w : Write)
      → Distinct (positions ws)
      → Memᴰ w ws
      → get_op (verify_each d now ws j).ops w.op ≡ Option.map (verified d now w) (get_op j.ops w.op)
  unfolding verify_each
  verify_each-at [] j w h m = elim m [ ]
  verify_each-at (v ∷ ws) j w h (head e) = rw e (
      verify_each-other ws (set_op j v.op (verified d now v)) v.op h.0
      ∙ get_op-update_op j.ops v.op v.op (verified d now v)
      ∙ rw ((nat_beq_iff v.op v.op).1 refl) refl)
  verify_each-at (v ∷ ws) j w h (tail m) =
      let apart : nat_beq v.op w.op ≡ false = apart_of v w ws h.0 m in
      verify_each-at ws (set_op j v.op (verified d now v)) w h.1 m
      ∙ rw (get_op-update_op j.ops v.op w.op (verified d now v), apart) refl

  -- Each operation of a device, told apart by its position, that claims after the verification that
  -- the write was done carries the time of the read, which reached the device and found the link
  -- there exactly if it was to be added.
  pub verify-IsReadBack :
      (ws : List Write) (j : Job) (w : Write) (op : Op)
      → Distinct (positions ws)
      → Memᴰ w ws
      → get_op (verify d now ws j).ops w.op ≡ some op
      → is_verifiable op.outcome ≡ true
      → IsReadBack d now w op
  unfolding verify
  verify-IsReadBack ws j w op h m found claims = elim (Bool-cases (is_pending j.ops w)) [
    | inl pending ↦
        let at =
          verify_each-at (keep (is_pending j.ops) ws) j w
            (Distinct-keep-positions (is_pending j.ops) ws h)
            (mem_keep (is_pending j.ops) ws m pending) in
        let (o, _, e) = map-eq-some (verified d now w) (get_op j.ops w.op) op (sym at ∙ found) in
        rw e (verified-IsReadBack d now w o (rw (← e) claims))
    | inr skipped ↦
        let at =
          verify_each-other (keep (is_pending j.ops) ws) j w.op
            (skipped-positions (is_pending j.ops) ws w h m skipped) in
        let old : get_op j.ops w.op ≡ some op = sym at ∙ found in
        cc (rw (old, is_pending) at skipped, claims)
  ]
