-- ===== src/Models/Identity.antt =====
-- models.py: what `DeviceHandle.identity`, `Link.fingerprint` and `HybridLeg.identity` identify.
use ha_device_links.Prelude.{
  Text, ◌∷◌, ◌++◌, ◌≡◌, ◌↔◌, str-injective, str_or_empty-injective, text, arith,
}
use ha_device_links.Models.Enums.{
  Backend, Feature, HybridKind, backend_text, feature_text, kind_text,
}
use ha_device_links.Models.Devices.{DeviceHandle, identity}
use ha_device_links.Models.Links.{Link, fingerprint, link_parts}
use ha_device_links.Models.Plans.{HybridLeg, leg_identity, leg_parts}
use ha_device_links.Models.Escaping.{join-injective}

pub backend_text-injective : (b c : Backend) → backend_text b ≡ backend_text c → b ≡ c
unfolding backend_text text
backend_text-injective b c h = ground arith

pub feature_text-injective : (f g : Feature) → feature_text f ≡ feature_text g → f ≡ g
unfolding feature_text text
feature_text-injective f g h = ground arith

pub kind_text-injective : (k l : HybridKind) → kind_text k ≡ kind_text l → k ≡ l
unfolding kind_text text
kind_text-injective k l h = ground arith

address-injective :
    (b c : Backend) (p q : Text)
    → backend_text b ++ (b':' ∷ p) ≡ backend_text c ++ (b':' ∷ q)
    → (b ≡ c) × (p ≡ q)
unfolding backend_text text
address-injective b c p q h = ground arith

-- Two devices have one identity exactly when they are on one backend at one protocol address.
pub identity-eq_iff :
    (a b : DeviceHandle)
    → (identity a ≡ identity b) ↔ ((a.backend ≡ b.backend) × (a.protocol_id ≡ b.protocol_id))
unfolding identity
identity-eq_iff a b =
    (address-injective a.backend b.backend a.protocol_id b.protocol_id, λ (e, f). rw (e, f))

-- What is written to a device for a link: the fields that its name, rule and control do not touch.
pub record SameWrite (a b : Link) : Type 0 where
  pub same_backend : a.backend ≡ b.backend
  pub same_source : identity a.source ≡ identity b.source
  pub same_source_endpoint : a.source_endpoint ≡ b.source_endpoint
  pub same_group : a.emitter_group ≡ b.emitter_group
  pub same_target : identity a.target.handle ≡ identity b.target.handle
  pub same_target_endpoint : a.target.endpoint ≡ b.target.endpoint
  pub same_feature : a.feature ≡ b.feature

link_parts→SameWrite : (a b : Link) → link_parts a ≡ link_parts b → SameWrite a b
link_parts→SameWrite a b h = record {
  same_backend = backend_text-injective a.backend b.backend (cc);
  same_source = cc;
  same_source_endpoint = str-injective a.source_endpoint b.source_endpoint (cc);
  same_group = cc;
  same_target = cc;
  same_target_endpoint = str_or_empty-injective a.target.endpoint b.target.endpoint (cc);
  same_feature = feature_text-injective a.feature b.feature (cc);
}

-- Two links have one fingerprint exactly when they are the same write: backend, source device and
-- endpoint, group, target device and endpoint, and feature.
pub fingerprint-eq_iff : (a b : Link) → (fingerprint a ≡ fingerprint b) ↔ SameWrite a b
unfolding fingerprint
fingerprint-eq_iff a b = (
  λ h.
      link_parts→SameWrite a b
        (join-injective (backend_text a.backend) (backend_text b.backend) _ _ h),
  λ s. cc (
    s.same_backend, s.same_source, s.same_source_endpoint, s.same_group, s.same_target,
    s.same_target_endpoint, s.same_feature,
  ),
)

pub record SameLeg (a b : HybridLeg) : Type 0 where
  pub same_kind : a.kind ≡ b.kind
  pub same_source : identity a.source ≡ identity b.source
  pub same_emitter : a.emitter_id ≡ b.emitter_id
  pub same_feature : a.feature ≡ b.feature
  pub same_target : identity a.target.handle ≡ identity b.target.handle
  pub same_target_endpoint : a.target.endpoint ≡ b.target.endpoint

leg_parts→SameLeg : (a b : HybridLeg) → leg_parts a ≡ leg_parts b → SameLeg a b
leg_parts→SameLeg a b h = record {
  same_kind = kind_text-injective a.kind b.kind (cc);
  same_source = cc;
  same_emitter = cc;
  same_feature = feature_text-injective a.feature b.feature (cc);
  same_target = cc;
  same_target_endpoint = str_or_empty-injective a.target.endpoint b.target.endpoint (cc);
}

-- Two hybrid legs have one identity exactly when kind, source device, control, feature, target
-- device and target endpoint agree.
pub leg_identity-eq_iff : (a b : HybridLeg) → (leg_identity a ≡ leg_identity b) ↔ SameLeg a b
unfolding leg_identity
leg_identity-eq_iff a b = (
  λ h. leg_parts→SameLeg a b (join-injective (kind_text a.kind) (kind_text b.kind) _ _ h),
  λ s. cc (
    s.same_kind, s.same_source, s.same_emitter, s.same_feature, s.same_target,
    s.same_target_endpoint,
  ),
)
