-- ===== src/Node/Addresses.antt =====
-- The addresses that `node_set_ip` records.
use foren6_analyzer.Prelude.{
  Bool, true, ◌&&◌, ◌==◌, ==_iff, Bool-cases, inl, inr, if◌then◌else◌, ◌≡◌, refl, arith,
}
use foren6_analyzer.Prelude.Words.{add32}
use foren6_analyzer.Address.{AddrIpv6, addr_compare_ip, addr_is_ip_local, addr_is_ip_global}
use foren6_analyzer.Address.Compare.{IsAddrIpv6, addr_compare_ip-eq-zero_iff}
use foren6_analyzer.Utlist.{Utlist}
use foren6_analyzer.SixlowpanDef.{SixlowpanConfig}
use foren6_analyzer.RplEvent.{RplEventEl}
use foren6_analyzer.Node.{DiNode, NodeState}
use foren6_analyzer.Node.Base.{node_set_changed}
use foren6_analyzer.Node.Ip.{
  count_invalid_ip, is_custom, take_local, take_global, mark_errors, count_invalid_prefix,
  reject_ip, set_local_ip, check_prefix, set_global_ip, node_set_ip,
}

abbrev pub config_of : {D : Type 0} → NodeState D → SixlowpanConfig
config_of s = s.node.sixlowpan_config

-- The address is recorded as seen, and the other address is left alone.
pub record LocalIs (a : AddrIpv6) (before after : SixlowpanConfig) : Type 0 where
  pub address : after.local_address ≡ a
  pub seen : after.has_seen_local_address ≡ true
  pub other : after.global_address ≡ before.global_address
  pub other_seen : after.has_seen_global_address ≡ before.has_seen_global_address

pub record GlobalIs (a : AddrIpv6) (before after : SixlowpanConfig) : Type 0 where
  pub address : after.global_address ≡ a
  pub seen : after.has_seen_global_address ≡ true
  pub other : after.local_address ≡ before.local_address
  pub other_seen : after.has_seen_local_address ≡ before.has_seen_local_address

-- What is recorded of an address, by its class.
pub Recorded : {D : Type 0} → AddrIpv6 → NodeState D → NodeState D → Type 0
Recorded a s s' =
    if addr_is_ip_local a
    then LocalIs a (config_of s) (config_of s')
    else if addr_is_ip_global a
    then GlobalIs a (config_of s) (config_of s')
    else ((config_of s' ≡ config_of s)
        × (s'.node.sixlowpan_errors.invalid_ip ≡ add32 s.node.sixlowpan_errors.invalid_ip 1))

equal_of :
    (a b : AddrIpv6) → IsAddrIpv6 a → IsAddrIpv6 b → (addr_compare_ip a b == 0) ≡ true → a ≡ b
equal_of a b va vb e =
    (addr_compare_ip-eq-zero_iff a b va vb).0 ((==_iff (addr_compare_ip a b) 0).0 e)

module _ {D : Type 0} ⦃dl : Utlist (RplEventEl D)⦄ where
  set_changed-config : (s : NodeState D) → config_of (node_set_changed s) ≡ config_of s
  unfolding node_set_changed
  set_changed-config s = refl

  take_local-LocalIs :
      (only : Bool) (a : AddrIpv6) (n : DiNode D)
      → n.sixlowpan_config.has_seen_local_address ≡ true
      → LocalIs a n.sixlowpan_config (take_local only a n).sixlowpan_config
  unfolding take_local count_invalid_ip
  take_local-LocalIs only a n e = elim (Bool-cases (is_custom a n && only)) [
    | inl c ↦ rw c (record { address = refl; seen = e; other = refl; other_seen = refl })
    | inr c ↦ rw c (record { address = refl; seen = e; other = refl; other_seen = refl })
  ]

  take_global-GlobalIs :
      (only : Bool) (a : AddrIpv6) (n : DiNode D)
      → n.sixlowpan_config.has_seen_global_address ≡ true
      → GlobalIs a n.sixlowpan_config (take_global only a n).sixlowpan_config
  unfolding take_global count_invalid_ip
  take_global-GlobalIs only a n e = elim (Bool-cases (is_custom a n && only)) [
    | inl c ↦ rw c (record { address = refl; seen = e; other = refl; other_seen = refl })
    | inr c ↦ rw c (record { address = refl; seen = e; other = refl; other_seen = refl })
  ]

  set_local_ip-LocalIs :
      (only : Bool) (a : AddrIpv6) (s : NodeState D)
      → IsAddrIpv6 a
      → IsAddrIpv6 s.node.sixlowpan_config.local_address
      → LocalIs a (config_of s) (config_of (set_local_ip only a s))
  unfolding set_local_ip node_set_changed
  set_local_ip-LocalIs only a s va vl =
      let seen = record (s.node) {
        sixlowpan_config = record (s.node.sixlowpan_config) { has_seen_local_address = true };
      } in
      elim (Bool-cases (addr_compare_ip s.node.sixlowpan_config.local_address a == 0)) [
        | inl e ↦
            let known = equal_of s.node.sixlowpan_config.local_address a vl va e in
            rw e (record { address = known; seen = refl; other = refl; other_seen = refl })
        | inr e ↦
            let t = take_local-LocalIs only a seen refl in
            rw e (record {
              address = t.address;
              seen = t.seen;
              other = t.other;
              other_seen = t.other_seen;
            })
      ]

  check_prefix-config : (s : NodeState D) → config_of (check_prefix s) ≡ config_of s
  unfolding check_prefix count_invalid_prefix mark_errors
  check_prefix-config s = ground arith

  set_global_ip-GlobalIs :
      (only : Bool) (a : AddrIpv6) (s : NodeState D)
      → IsAddrIpv6 a
      → IsAddrIpv6 s.node.sixlowpan_config.global_address
      → GlobalIs a (config_of s) (config_of (set_global_ip only a s))
  unfolding set_global_ip node_set_changed
  set_global_ip-GlobalIs only a s va vg =
      let seen = record (s.node) {
        sixlowpan_config = record (s.node.sixlowpan_config) { has_seen_global_address = true };
      } in
      elim (Bool-cases (addr_compare_ip s.node.sixlowpan_config.global_address a == 0)) [
        | inl e ↦
            let known = equal_of s.node.sixlowpan_config.global_address a vg va e in
            rw (check_prefix-config, e)
              (record { address = known; seen = refl; other = refl; other_seen = refl })
        | inr e ↦
            let t = take_global-GlobalIs only a seen refl in
            rw (check_prefix-config, e)
              (record {
                address = t.address;
                seen = t.seen;
                other = t.other;
                other_seen = t.other_seen;
              })
      ]

  -- On addresses with 32-bit words: `node_set_ip` of a local address makes it the local address,
  -- marks it as seen and leaves the global one; of a global address the other way round; of any
  -- other address it leaves all of the configuration, and counts an invalid address.
  pub node_set_ip-config_of :
      (only : Bool) (a : AddrIpv6) (s : NodeState D)
      → IsAddrIpv6 a
      → IsAddrIpv6 s.node.sixlowpan_config.local_address
      → IsAddrIpv6 s.node.sixlowpan_config.global_address
      → Recorded a s (node_set_ip only a s)
  unfolding node_set_ip reject_ip mark_errors count_invalid_ip Recorded
  node_set_ip-config_of only a s va vl vg = elim (Bool-cases (addr_is_ip_local a)) [
    | inl e ↦ rw e (set_local_ip-LocalIs only a s va vl)
    | inr e ↦ elim (Bool-cases (addr_is_ip_global a)) [
      | inl g ↦ rw (e, g) (set_global_ip-GlobalIs only a s va vg)
      | inr g ↦ rw (e, g) (refl, refl)
    ]
  ]
