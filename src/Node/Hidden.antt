-- ===== src/Node/Hidden.antt =====
-- The errors of addresses that `node_fill_delta` does not see.
use foren6_analyzer.Prelude.{◌≡◌}
use foren6_analyzer.Prelude.Double.{Double}
use foren6_analyzer.Utlist.{Utlist}
use foren6_analyzer.Node.{NodeState}

-- The second state's node has the RPL errors of the first's.
record SameErrors {D : Type 0} (s t : NodeState D) : Type 0 where
  rpl : t.node.rpl_errors ≡ s.node.rpl_errors
