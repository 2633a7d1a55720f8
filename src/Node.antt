-- ===== src/Node.antt =====
-- src/data_info/node.c: what is known of a node of the network. The operations change the node,
-- the copy of it in the last version of the network, and the queue of events.
pub mod Addresses
pub mod Base
pub mod Delta
pub mod Errors
pub mod Events
pub mod Getters
pub mod Hidden
pub mod Ip
pub mod Once
pub mod Operations
pub mod Rpl
pub mod Sample
mod Tests
use foren6_analyzer.Prelude.{ℕ, Bool, List, Option, none, some}
use foren6_analyzer.RplDef.Types.{
  RplDodagConfig, RplDodagConfigDelta, RplErrors, RplErrorsDelta, RplInstanceConfig,
  RplInstanceConfigDelta, RplInstanceData, RplInstanceDataDelta, RplPrefix, RplPrefixDelta,
  RplStatistics, RplStatisticsDelta,
}
use foren6_analyzer.SixlowpanDef.{
  SixlowpanConfig, SixlowpanConfigDelta, SixlowpanStatistics, SixlowpanStatisticsDelta,
  SixlowpanErrors, SixlowpanErrorsDelta,
}
use foren6_analyzer.Refs.{DiDodagRef}
use foren6_analyzer.Route.{DiRouteEl}
use foren6_analyzer.RplEvent.{RplEventEl}
use foren6_analyzer.Refs.{DiNodeRef}

pub record DiNodeKey : Type 0 where
  pub ref : DiNodeRef

-- `has_errors` is an `int`.
pub record DiNode (D : Type 0) : Type 0 where
  pub key : DiNodeKey
  pub simple_id : ℕ
  pub dodag : DiDodagRef
  pub has_changed : Bool
  pub has_errors : ℕ
  pub sixlowpan_config : SixlowpanConfig
  pub sixlowpan_config_delta : SixlowpanConfigDelta
  pub has_rpl_instance_config : Bool
  pub rpl_instance_config : RplInstanceConfig
  pub rpl_instance_config_delta : RplInstanceConfigDelta
  pub actual_rpl_instance_config_delta : RplInstanceConfigDelta
  pub has_rpl_instance_data : Bool
  pub rpl_instance_data : RplInstanceData
  pub rpl_instance_data_delta : RplInstanceDataDelta
  pub has_rpl_dodag_config : Bool
  pub rpl_dodag_config : RplDodagConfig
  pub rpl_dodag_config_delta : RplDodagConfigDelta
  pub actual_rpl_dodag_config_delta : RplDodagConfigDelta
  pub has_rpl_dodag_prefix_info : Bool
  pub rpl_dodag_prefix_info : RplPrefix
  pub rpl_dodag_prefix_info_delta : RplPrefixDelta
  pub actual_rpl_dodag_prefix_info_delta : RplPrefixDelta
  pub routes_delta : Bool
  pub routes : List DiRouteEl
  pub sixlowpan_statistics : SixlowpanStatistics
  pub sixlowpan_statistics_delta : SixlowpanStatisticsDelta
  pub rpl_statistics : RplStatistics D
  pub rpl_statistics_delta : RplStatisticsDelta D
  pub sixlowpan_errors : SixlowpanErrors
  pub sixlowpan_errors_delta : SixlowpanErrorsDelta
  pub rpl_errors : RplErrors
  pub rpl_errors_delta : RplErrorsDelta

-- `old` is the node with the same key in the last version of the network, where there is one and
-- it is another object; `head` is the queue of events.
pub record NodeState (D : Type 0) : Type 0 where
  pub node : DiNode D
  pub old : Option (DiNode D)
  pub head : List (RplEventEl D)

-- An assignment to fields of the node.
abbrev pub modify : {D : Type 0} → (DiNode D → DiNode D) → NodeState D → NodeState D
modify f s = record s { node = f s.node }

-- A call of `node_update_old_field`; `copy` takes the field of the first node over to the second.
abbrev pub node_update_old_field :
    {D : Type 0} → (DiNode D → DiNode D → DiNode D) → NodeState D → NodeState D
node_update_old_field copy s = record s {
  old = elim s.old [ none ↦ none | some old ↦ some (copy s.node old) ];
}
