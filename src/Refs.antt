-- ===== src/Refs.antt =====
-- The references by which objects are found and named in events: node.h, link.h, dodag.h and
-- rpl_instance.h of src/data_info. `hash_key_make` takes the bytes of one; its padding is zero,
-- since the `_ref_init` functions clear it.
use foren6_analyzer.Prelude.{ℕ, Bool, true, ◌&&◌, ◌==◌, ◌≡◌, ◌↔◌, arith}
use foren6_analyzer.Address.{AddrIpv6, AddrWpan}

-- `memcmp` of two keys is 0.
pub record Key (K : Type 0) : Type 0 where
  pub same : K → K → Bool
  pub same_iff : (a b : K) → (same a b ≡ true) ↔ (a ≡ b)

pub record DiNodeRef : Type 0 where
  pub wpan_address : AddrWpan

pub record DiLinkRef : Type 0 where
  pub child : DiNodeRef
  pub parent : DiNodeRef

-- `version` is the 16-bit pattern of an `int16_t`.
pub record DiDodagRef : Type 0 where
  pub dodagid : AddrIpv6
  pub version : ℕ

-- The 16-bit pattern of an `int16_t`.
pub record DiRplInstanceRef : Type 0 where
  pub rpl_instance : ℕ

unfoldable pub same_node_ref : DiNodeRef → DiNodeRef → Bool
same_node_ref a b = a.wpan_address == b.wpan_address

unfoldable pub same_link_ref : DiLinkRef → DiLinkRef → Bool
unfolding same_node_ref
same_link_ref a b = same_node_ref a.child b.child && same_node_ref a.parent b.parent

unfoldable pub same_dodag_ref : DiDodagRef → DiDodagRef → Bool
same_dodag_ref a b =
    (a.dodagid.addr32_0 == b.dodagid.addr32_0)
    && (a.dodagid.addr32_1 == b.dodagid.addr32_1)
    && (a.dodagid.addr32_2 == b.dodagid.addr32_2)
    && (a.dodagid.addr32_3 == b.dodagid.addr32_3)
    && (a.version == b.version)

unfoldable pub same_rpl_instance_ref : DiRplInstanceRef → DiRplInstanceRef → Bool
same_rpl_instance_ref a b = a.rpl_instance == b.rpl_instance

pub same_node_ref_iff : (a b : DiNodeRef) → (same_node_ref a b ≡ true) ↔ (a ≡ b)
unfolding same_node_ref
same_node_ref_iff a b = ground arith

pub same_link_ref_iff : (a b : DiLinkRef) → (same_link_ref a b ≡ true) ↔ (a ≡ b)
unfolding same_link_ref
same_link_ref_iff a b = ground arith

pub same_dodag_ref_iff : (a b : DiDodagRef) → (same_dodag_ref a b ≡ true) ↔ (a ≡ b)
unfolding same_dodag_ref
same_dodag_ref_iff a b = ground arith

pub same_rpl_instance_ref_iff :
    (a b : DiRplInstanceRef) → (same_rpl_instance_ref a b ≡ true) ↔ (a ≡ b)
unfolding same_rpl_instance_ref
same_rpl_instance_ref_iff a b = ground arith

instance abbrev pub node_ref_key : Key DiNodeRef
node_ref_key = record { same = same_node_ref; same_iff = same_node_ref_iff }

instance abbrev pub link_ref_key : Key DiLinkRef
link_ref_key = record { same = same_link_ref; same_iff = same_link_ref_iff }

instance abbrev pub dodag_ref_key : Key DiDodagRef
dodag_ref_key = record { same = same_dodag_ref; same_iff = same_dodag_ref_iff }

instance abbrev pub rpl_instance_ref_key : Key DiRplInstanceRef
rpl_instance_ref_key = record { same = same_rpl_instance_ref; same_iff = same_rpl_instance_ref_iff }
