-- ===== src/RplData/Wsn.antt =====
-- The versions of the whole network in src/data_info/rpl_data.c: the array `wsn_versions`. A
-- `double` is of the type `D`.
use foren6_analyzer.Prelude.{
  ℕ, ◌+◌, ◌*◌, ◌%◌, ◌^◌, ◌<◌, ◌≤◌, true, false, ltb, leb, ◌==◌, Option, none, some, if◌then◌else◌,
  Returns, Returns-if_true, ◌≡◌, refl, arith,
}

pub record DiRplWsnState (D : Type 0) : Type 0 where
  pub node_version : ℕ
  pub dodag_version : ℕ
  pub rpl_instance_version : ℕ
  pub links_version : ℕ
  pub timestamp : D
  pub packet_id : ℕ
  pub has_errors : ℕ

-- The last version of each kind of object.
pub record LastVersions : Type 0 where
  pub node_last_version : ℕ
  pub dodag_last_version : ℕ
  pub rpl_instance_last_version : ℕ
  pub link_last_version : ℕ

-- `wsn_versions` gives the contents of the array at the indices below its size.
pub record WsnVersions (D : Type 0) : Type 0 where
  pub wsn_versions : ℕ → DiRplWsnState D
  pub wsn_version_array_size : ℕ
  pub wsn_last_version : ℕ
  pub node_last_version_has_errors : ℕ

-- A version that there is, or -1 in 32 bits.
abbrev pub version_or_none : ℕ → ℕ
version_or_none version = if version == 0 then 4294967295 else version

module _ {D : Type 0} where
  abbrev pub update : (ℕ → DiRplWsnState D) → ℕ → DiRplWsnState D → ℕ → DiRplWsnState D
  update versions i state j = if i == j then state else versions j

  -- `rpldata_wsn_create_version` without the call of `rpl_event_process_events`; `none` is a write
  -- behind the end of the array.
  unfoldable pub rpldata_wsn_create_version :
      LastVersions → ℕ → D → WsnVersions D → Option (WsnVersions D)
  rpldata_wsn_create_version last packet_id timestamp s =
      let version = (s.wsn_last_version + 1) % 2 ^ 32 in
      let size =
        if leb s.wsn_version_array_size version
        then (s.wsn_version_array_size * 2) % 2 ^ 32
        else s.wsn_version_array_size in
      let state : DiRplWsnState D = record {
        node_version = version_or_none last.node_last_version;
        dodag_version = version_or_none last.dodag_last_version;
        rpl_instance_version = version_or_none last.rpl_instance_last_version;
        links_version = version_or_none last.link_last_version;
        timestamp = timestamp;
        packet_id = packet_id;
        has_errors = s.node_last_version_has_errors;
      } in
      if ltb version size
      then some (record {
        wsn_versions = update s.wsn_versions version state;
        wsn_version_array_size = size;
        wsn_last_version = version;
        node_last_version_has_errors = 0;
      })
      else none

  -- `rpldata_init` of the array; `zero` is the time 0.
  unfoldable pub init_wsn_versions : D → WsnVersions D → WsnVersions D
  init_wsn_versions zero s = record s {
    wsn_versions = update s.wsn_versions 0 (record (s.wsn_versions 0) {
      node_version = 0;
      dodag_version = 0;
      rpl_instance_version = 0;
      links_version = 0;
      timestamp = zero;
      has_errors = 0;
    });
    wsn_version_array_size =
        if ltb s.wsn_version_array_size 256 then 256 else s.wsn_version_array_size;
    wsn_last_version = 0;
  }

  abbrev pub or_last : WsnVersions D → ℕ → ℕ
  or_last s version = if version == 0 then s.wsn_last_version else version

  unfoldable pub rpldata_wsn_version_get_timestamp : WsnVersions D → ℕ → D
  rpldata_wsn_version_get_timestamp s version = (s.wsn_versions (or_last s version)).timestamp

  unfoldable pub rpldata_wsn_version_get_packet_count : WsnVersions D → ℕ → ℕ
  rpldata_wsn_version_get_packet_count s version = (s.wsn_versions (or_last s version)).packet_id

  unfoldable pub rpldata_wsn_version_get_has_errors : WsnVersions D → ℕ → ℕ
  rpldata_wsn_version_get_has_errors s version = (s.wsn_versions (or_last s version)).has_errors

  -- The last version is inside the array.
  pub record IsBounded (s : WsnVersions D) : Type 0 where
    pub inside : s.wsn_last_version < s.wsn_version_array_size

  -- What a call of `rpldata_wsn_create_version` must do.
  pub record Created (last : LastVersions) (packet_id : ℕ) (timestamp : D) (s t : WsnVersions D)
      : Type 0 where
    pub bounded : IsBounded t
    pub next : t.wsn_last_version ≡ s.wsn_last_version + 1
    pub time : rpldata_wsn_version_get_timestamp t 0 ≡ timestamp
    pub packet : rpldata_wsn_version_get_packet_count t 0 ≡ packet_id
    pub errors : rpldata_wsn_version_get_has_errors t 0 ≡ s.node_last_version_has_errors
    pub earlier : (i : ℕ) → i ≤ s.wsn_last_version → t.wsn_versions i ≡ s.wsn_versions i

  -- As long as the last version is inside the array and below 2 ^ 31 - 1, the array's size being at
  -- most 2 ^ 31, `rpldata_wsn_create_version` writes inside the array, which it doubles if need be.
  -- The new version is the next one and again inside the array; its time, packet number and errors
  -- are what the getters return for the last version, and no earlier version changes.
  pub create_version-Created :
      (last : LastVersions) (packet_id : ℕ) (timestamp : D) (s : WsnVersions D)
      → IsBounded s
      → s.wsn_version_array_size ≤ 2 ^ 31
      → s.wsn_last_version + 1 < 2 ^ 31
      → Returns
          (Created last packet_id timestamp s)
          (rpldata_wsn_create_version last packet_id timestamp s)
  unfolding rpldata_wsn_create_version rpldata_wsn_version_get_timestamp
      rpldata_wsn_version_get_packet_count rpldata_wsn_version_get_has_errors
  create_version-Created last packet_id timestamp s b h g =
      let version = s.wsn_last_version + 1 in
      let inside = b.inside in
      let narrow : version % 4294967296 ≡ version = omega (arith, g) in
      let self : (version == version) ≡ true = ground arith in
      let room : ltb version (
            if leb s.wsn_version_array_size version
            then (s.wsn_version_array_size * 2) % 4294967296
            else s.wsn_version_array_size)
          ≡ true =
        ground (arith, inside, h, g) in
      rw narrow (
        Returns-if_true (Created last packet_id timestamp s) _ _ room (record {
          bounded = record { inside = ground (arith, inside, h, g) };
          next = refl;
          time = rw (self, rpldata_wsn_version_get_timestamp) refl;
          packet = rw (self, rpldata_wsn_version_get_packet_count) refl;
          errors = rw (self, rpldata_wsn_version_get_has_errors) refl;
          earlier = λ i below.
              let other : (version == i) ≡ false = ground (arith, below) in rw other refl;
        }))
