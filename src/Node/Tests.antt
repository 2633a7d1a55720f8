-- ===== src/Node/Tests.antt =====
-- A node at concrete inputs.
use foren6_analyzer.Prelude.{arith, ℕ, true, false, List, [], ◌∷◌, some}
use foren6_analyzer.Prelude.Double.{whole_double}
use foren6_analyzer.Address.{AddrIpv6}
use foren6_analyzer.Utlist.{Utlist, plain_lists}
use foren6_analyzer.RplDef.Types.{RplDio}
use foren6_analyzer.Route.{DiRouteEl}
use foren6_analyzer.RplEvent.{RplEventEl}
use foren6_analyzer.Node.Sample.{no_address, start}
use foren6_analyzer.Node.Base.{node_reset_changed}
use foren6_analyzer.Node.Operations.{
  NodeOp, update_from_dio, update_from_dis, add_error, forward, run,
}
use foren6_analyzer.Address.Compare.{IsAddrIpv6}
use foren6_analyzer.Node.Ip.{node_set_ip}
use foren6_analyzer.Node.Addresses.{Recorded, node_set_ip-config_of}
use foren6_analyzer.Node.Events.{Reported}
use foren6_analyzer.Node.Once.Run.{run-Reported}

instance abbrev routes : Utlist DiRouteEl
routes = plain_lists

instance abbrev events : Utlist (RplEventEl ℕ)
events = plain_lists

abbrev dio : RplDio
dio = record {
  rpl_instance_id = 30;
  version_number = 240;
  rank = 512;
  grounded = false;
  preference = 0;
  mode_of_operation = 2;
  dtsn = 1;
  dodagid = no_address;
}

abbrev three_ops : List (NodeOp ℕ)
three_ops = update_from_dio (some dio) ∷ add_error forward ∷ update_from_dis ∷ []

run-Reported_example : Reported start (run true three_ops (node_reset_changed start))
run-Reported_example = run-Reported true three_ops start

no_address-IsAddrIpv6 : IsAddrIpv6 no_address
no_address-IsAddrIpv6 = omega arith

-- fe80::1
abbrev neighbour : AddrIpv6
neighbour = record { addr32_0 = 0x80fe; addr32_1 = 0; addr32_2 = 0; addr32_3 = 0x0100_0000 }

node_set_ip-config_of_example : Recorded neighbour start (node_set_ip true neighbour start)
node_set_ip-config_of_example =
    node_set_ip-config_of true neighbour start (omega arith) no_address-IsAddrIpv6
      no_address-IsAddrIpv6

-- ff02::1 is no address that a node can have.
abbrev all_nodes : AddrIpv6
all_nodes = record { addr32_0 = 0x02ff; addr32_1 = 0; addr32_2 = 0; addr32_3 = 0x0100_0000 }
