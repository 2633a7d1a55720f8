-- ===== src/Dodag.antt =====
-- src/data_info/dodag.c: a DODAG. The operations change the DODAG and the queue of events; those
-- that also change a node are in Dodag/Members.antt.
pub mod Events
pub mod Join
pub mod Members
pub mod Once
pub mod Operations
mod Tests
pub mod Zero
use foren6_analyzer.Prelude.{ℕ, Bool, true, false, List, Option, none, some, ◌==◌, if◌then◌else◌}
use foren6_analyzer.Address.{AddrIpv6}
use foren6_analyzer.RplDef.Types.{
  RplDio, RplDodagConfig, RplDodagConfigDelta, RplInstanceConfig, RplInstanceConfigDelta, RplPrefix,
  RplPrefixDelta,
}
use foren6_analyzer.RplDef.Delta.{
  rpl_instance_config_compare, rpl_dodag_config_compare, rpl_prefix_compare,
}
use foren6_analyzer.RplDef.Update.{update_rpl_instance_config_from_dio}
use foren6_analyzer.Utlist.{Utlist}
use foren6_analyzer.Uthash.{Uthash}
use foren6_analyzer.Refs.{DiNodeRef, DiDodagRef, DiRplInstanceRef, same_dodag_ref, node_ref_key}
use foren6_analyzer.RplEvent.{RplEventEl, ret_created, ret_updated, rpl_event_dodag}
use foren6_analyzer.HashContainer.{HashContainer, hash_create, hash_dup}
use foren6_analyzer.Dodag.Zero.{
  zero_instance_config, zero_instance_config_delta, zero_dodag_config, zero_dodag_config_delta,
  zero_prefix, zero_prefix_delta,
}

pub record DiDodagKey : Type 0 where
  pub ref : DiDodagRef

pub record DiDodag : Type 0 where
  pub key : DiDodagKey
  pub instance_config : RplInstanceConfig
  pub instance_config_delta : RplInstanceConfigDelta
  pub has_dodag_config : Bool
  pub dodag_config : RplDodagConfig
  pub dodag_config_delta : RplDodagConfigDelta
  pub has_prefix_info : Bool
  pub prefix_info : RplPrefix
  pub prefix_info_delta : RplPrefixDelta
  pub rpl_instance : DiRplInstanceRef
  pub nodes : HashContainer DiNodeRef DiNodeRef
  pub has_changed : Bool

-- `head` is the queue of events.
pub record DodagState (D : Type 0) : Type 0 where
  pub dodag : DiDodag
  pub head : List (RplEventEl D)

-- `version` is the version of the network, which the key does not hold.
unfoldable pub dodag_key_init : AddrIpv6 → ℕ → ℕ → DiDodagKey
dodag_key_init dodag_id dodag_version version = record {
  ref = record { dodagid = dodag_id; version = dodag_version };
}

unfoldable pub dodag_ref_init : AddrIpv6 → ℕ → DiDodagRef
dodag_ref_init dodag_id dodag_version = record { dodagid = dodag_id; version = dodag_version }

unfoldable pub dodag_get_dodag_config : DiDodag → Option RplDodagConfig
dodag_get_dodag_config dodag = if dodag.has_dodag_config then some dodag.dodag_config else none

unfoldable pub dodag_get_prefix : DiDodag → Option RplPrefix
dodag_get_prefix dodag = if dodag.has_prefix_info then some dodag.prefix_info else none

-- A copy with a container of its own; the fuel is that of `hash_dup`.
unfoldable pub dodag_dup : ⦃ut : Uthash DiNodeRef DiNodeRef⦄ → ℕ → DiDodag → Option DiDodag
unfolding hash_dup
dodag_dup fuel dodag = elim (hash_dup fuel dodag.nodes) [
  | none ↦ none
  | some nodes ↦ some (record dodag { nodes = nodes })
]

module _ {D : Type 0} ⦃dl : Utlist (RplEventEl D)⦄ where
  -- The second argument is a node's key of zeros, for the container. `rpl_instance` is -1 in 16 bits.
  unfoldable pub dodag_init : DiDodagRef → DiNodeRef → List (RplEventEl D) → DodagState D
  dodag_init ref zeros head = record {
    dodag = record {
      key = record { ref = ref };
      instance_config = zero_instance_config;
      instance_config_delta = zero_instance_config_delta;
      has_dodag_config = false;
      dodag_config = zero_dodag_config;
      dodag_config_delta = zero_dodag_config_delta;
      has_prefix_info = false;
      prefix_info = zero_prefix;
      prefix_info_delta = zero_prefix_delta;
      rpl_instance = record { rpl_instance = 65535 };
      nodes = hash_create zeros none;
      has_changed = true;
    };
    head = rpl_event_dodag head ref ret_created;
  }

  unfoldable pub dodag_set_changed : DodagState D → DodagState D
  dodag_set_changed s = record {
    dodag = record (s.dodag) { has_changed = true };
    head =
        if s.dodag.has_changed then s.head else rpl_event_dodag s.head s.dodag.key.ref ret_updated;
  }

  unfoldable pub dodag_has_changed : DodagState D → Bool
  dodag_has_changed s = s.dodag.has_changed

  unfoldable pub dodag_reset_changed : DodagState D → DodagState D
  dodag_reset_changed s = record s { dodag = record (s.dodag) { has_changed = false } }

  unfoldable pub dodag_set_key : DiDodagKey → DodagState D → DodagState D
  dodag_set_key key s =
      if same_dodag_ref s.dodag.key.ref key.ref
      then s
      else dodag_set_changed (record s { dodag = record (s.dodag) { key = key } })

  unfoldable pub dodag_update_from_dio : Option RplDio → DodagState D → DodagState D
  dodag_update_from_dio none s = s
  dodag_update_from_dio (some dio) s =
      let new_config = update_rpl_instance_config_from_dio s.dodag.instance_config (some dio) in
      if rpl_instance_config_compare (some new_config) (some s.dodag.instance_config)
      then dodag_set_changed
          (record s { dodag = record (s.dodag) { instance_config = new_config } })
      else s

  -- The assignment of `has_dodag_config`.
  abbrev pub with_dodag_config : Bool → DodagState D → DodagState D
  with_dodag_config b s = record s { dodag = record (s.dodag) { has_dodag_config = b } }

  unfoldable pub dodag_update_from_dodag_config :
      Option RplDodagConfig → DodagState D → DodagState D
  dodag_update_from_dodag_config (some dodag_config) s = with_dodag_config true (
      if rpl_dodag_config_compare (some dodag_config) (some s.dodag.dodag_config)
      then dodag_set_changed (record s { dodag = record (s.dodag) { dodag_config = dodag_config } })
      else s)
  dodag_update_from_dodag_config none s =
      with_dodag_config false (if s.dodag.has_dodag_config then dodag_set_changed s else s)

  -- The assignment of `has_prefix_info`.
  abbrev pub with_prefix_info : Bool → DodagState D → DodagState D
  with_prefix_info b s = record s { dodag = record (s.dodag) { has_prefix_info = b } }

  unfoldable pub dodag_update_from_dodag_prefix_info :
      Option RplPrefix → DodagState D → DodagState D
  dodag_update_from_dodag_prefix_info (some prefix) s = with_prefix_info true (
      if rpl_prefix_compare (some prefix) (some s.dodag.prefix_info)
      then dodag_set_changed (record s { dodag = record (s.dodag) { prefix_info = prefix } })
      else s)
  dodag_update_from_dodag_prefix_info none s =
      with_prefix_info false (if s.dodag.has_prefix_info then dodag_set_changed s else s)

  unfoldable pub dodag_set_rpl_instance : DiRplInstanceRef → DodagState D → DodagState D
  dodag_set_rpl_instance rpl_instance s =
      if s.dodag.rpl_instance.rpl_instance == rpl_instance.rpl_instance
      then s
      else dodag_set_changed (record s { dodag = record (s.dodag) { rpl_instance = rpl_instance } })
