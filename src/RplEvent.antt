-- ===== src/RplEvent.antt =====
-- src/data_collector/rpl_event_callbacks.c: the queue of events and the functions that add to it.
use foren6_analyzer.Prelude.{ℕ, List}
use foren6_analyzer.Utlist.{Utlist}
use foren6_analyzer.Refs.{DiNodeRef, DiLinkRef, DiDodagRef, DiRplInstanceRef}
use foren6_analyzer.SixlowpanDef.{PacketInfo}

pub data RplEventType : Type 0 where
  ret_created ret_updated ret_deleted : RplEventType

-- `rpl_object_type_e` with the member of the union that goes with it. A `double` is of the type `D`.
pub data RplObject (D : Type 0) : Type 0 where
  rot_node : DiNodeRef → RplObject D
  rot_dodag : DiDodagRef → RplObject D
  rot_link : DiLinkRef → RplObject D
  rot_rpl_instance : DiRplInstanceRef → RplObject D
  rot_packet : ℕ → PacketInfo D → RplObject D

pub record RplEventEl (D : Type 0) : Type 0 where
  pub type : RplEventType
  pub object : RplObject D

module _ {D : Type 0} ⦃dl : Utlist (RplEventEl D)⦄ (head : List (RplEventEl D)) where
  unfoldable pub rpl_event_packet : ℕ → PacketInfo D → List (RplEventEl D)
  rpl_event_packet packet_id pkt_info =
      dl.dl_append head (record { type = ret_created; object = rot_packet packet_id pkt_info })

  unfoldable pub rpl_event_node : DiNodeRef → RplEventType → List (RplEventEl D)
  rpl_event_node ref type = dl.dl_append head (record { type = type; object = rot_node ref })

  unfoldable pub rpl_event_dodag : DiDodagRef → RplEventType → List (RplEventEl D)
  rpl_event_dodag ref type = dl.dl_append head (record { type = type; object = rot_dodag ref })

  unfoldable pub rpl_event_link : DiLinkRef → RplEventType → List (RplEventEl D)
  rpl_event_link ref type = dl.dl_append head (record { type = type; object = rot_link ref })

  unfoldable pub rpl_event_rpl_instance : DiRplInstanceRef → RplEventType → List (RplEventEl D)
  rpl_event_rpl_instance ref type =
      dl.dl_append head (record { type = type; object = rot_rpl_instance ref })
