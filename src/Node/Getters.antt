-- ===== src/Node/Getters.antt =====
-- The getters of node.c that hide what has not been seen. The others return a field.
use foren6_analyzer.Prelude.{◌^◌, ltb, Option, none, some, if◌then◌else◌}
use foren6_analyzer.RplDef.Types.{RplInstanceConfig, RplInstanceData, RplDodagConfig, RplPrefix}
use foren6_analyzer.Refs.{DiDodagRef}
use foren6_analyzer.Node.{DiNode}

module _ {D : Type 0} where
  -- `version >= 0`
  unfoldable pub node_get_dodag : DiNode D → Option DiDodagRef
  node_get_dodag node = if ltb node.dodag.version (2 ^ 15) then some node.dodag else none

  unfoldable pub node_get_instance_config : DiNode D → Option RplInstanceConfig
  node_get_instance_config node =
      if node.has_rpl_instance_config then some node.rpl_instance_config else none

  unfoldable pub node_get_instance_data : DiNode D → Option RplInstanceData
  node_get_instance_data node =
      if node.has_rpl_instance_data then some node.rpl_instance_data else none

  unfoldable pub node_get_dodag_config : DiNode D → Option RplDodagConfig
  node_get_dodag_config node =
      if node.has_rpl_dodag_config then some node.rpl_dodag_config else none

  unfoldable pub node_get_dodag_prefix_info : DiNode D → Option RplPrefix
  node_get_dodag_prefix_info node =
      if node.has_rpl_dodag_prefix_info then some node.rpl_dodag_prefix_info else none
