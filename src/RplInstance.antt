-- ===== src/RplInstance.antt =====
-- src/data_info/rpl_instance.c: an RPL instance and its DODAGs. The operations change the instance,
-- the DODAG that is added or removed, and the queue of events.
pub mod Dodags
mod Tests
use foren6_analyzer.Prelude.{ℕ, Bool, true, false, List, Option, none, some, ◌==◌, if◌then◌else◌}
use foren6_analyzer.Utlist.{Utlist}
use foren6_analyzer.Uthash.{Uthash}
use foren6_analyzer.Refs.{DiDodagRef, DiRplInstanceRef, same_rpl_instance_ref, dodag_ref_key}
use foren6_analyzer.RplEvent.{RplEventEl, ret_created, ret_updated, rpl_event_rpl_instance}
use foren6_analyzer.HashContainer.{
  HashContainer, HashAdd, ham_overwrite_if_exists, hash_create, hash_add, hash_delete, hash_dup,
}
use foren6_analyzer.Dodag.{DiDodag, DodagState, dodag_set_rpl_instance}

pub record DiRplInstanceKey : Type 0 where
  pub ref : DiRplInstanceRef

pub record DiRplInstance : Type 0 where
  pub key : DiRplInstanceKey
  pub dodags : HashContainer DiDodagRef DiDodagRef
  pub mode_of_operation : ℕ
  pub has_changed : Bool

-- `head` is the queue of events.
pub record InstanceState (D : Type 0) : Type 0 where
  pub rpl_instance : DiRplInstance
  pub head : List (RplEventEl D)

-- An instance and a DODAG with the queue of events.
pub record InstanceDodagState (D : Type 0) : Type 0 where
  pub rpl_instance : DiRplInstance
  pub dodags : DodagState D

-- `version` is the version of the network, which the key does not hold.
unfoldable pub rpl_instance_key_init : ℕ → ℕ → DiRplInstanceKey
rpl_instance_key_init rpl_instance version = record { ref = record { rpl_instance = rpl_instance } }

unfoldable pub rpl_instance_ref_init : ℕ → DiRplInstanceRef
rpl_instance_ref_init rpl_instance = record { rpl_instance = rpl_instance }

-- A copy with a container of its own; the fuel is that of `hash_dup`.
unfoldable pub rpl_instance_dup :
    ⦃ut : Uthash DiDodagRef DiDodagRef⦄ → ℕ → DiRplInstance → Option DiRplInstance
unfolding hash_dup
rpl_instance_dup fuel rpl_instance = elim (hash_dup fuel rpl_instance.dodags) [
  | none ↦ none
  | some dodags ↦ some (record rpl_instance { dodags = dodags })
]

abbrev pub with_dodags : HashContainer DiDodagRef DiDodagRef → DiRplInstance → DiRplInstance
with_dodags dodags rpl_instance = record rpl_instance { dodags = dodags }

-- `-1` in 16 bits
abbrev pub null_rpl_instance : DiRplInstanceRef
null_rpl_instance = record { rpl_instance = 65535 }

module _ {D : Type 0} ⦃dl : Utlist (RplEventEl D)⦄ where
  -- The instance in memory that holds `memory`; `zeros` is a DODAG's key of zeros, for the container.
  unfoldable pub rpl_instance_init :
      DiRplInstance → DiRplInstanceRef → DiDodagRef → List (RplEventEl D) → InstanceState D
  rpl_instance_init memory ref zeros head = record {
    rpl_instance = record memory {
      key = record { ref = ref };
      dodags = hash_create zeros none;
      has_changed = true;
    };
    head = rpl_event_rpl_instance head ref ret_created;
  }

  unfoldable pub rpl_instance_set_changed : InstanceState D → InstanceState D
  rpl_instance_set_changed s = record {
    rpl_instance = record (s.rpl_instance) { has_changed = true };
    head =
        if s.rpl_instance.has_changed
        then s.head
        else rpl_event_rpl_instance s.head s.rpl_instance.key.ref ret_updated;
  }

  unfoldable pub rpl_instance_has_changed : InstanceState D → Bool
  rpl_instance_has_changed s = s.rpl_instance.has_changed

  unfoldable pub rpl_instance_reset_changed : InstanceState D → InstanceState D
  rpl_instance_reset_changed s = record s {
    rpl_instance = record (s.rpl_instance) { has_changed = false };
  }

  unfoldable pub rpl_instance_set_key : DiRplInstanceKey → InstanceState D → InstanceState D
  rpl_instance_set_key key s =
      if same_rpl_instance_ref s.rpl_instance.key.ref key.ref
      then s
      else rpl_instance_set_changed
          (record s { rpl_instance = record (s.rpl_instance) { key = key } })

  unfoldable pub rpl_instance_set_mop : ℕ → InstanceState D → InstanceState D
  rpl_instance_set_mop mop s =
      if s.rpl_instance.mode_of_operation == mop
      then s
      else rpl_instance_set_changed
          (record s { rpl_instance = record (s.rpl_instance) { mode_of_operation = mop } })

  -- `rpl_instance_set_changed` where the queue is that of the DODAG's state.
  unfoldable pub mark_instance : InstanceDodagState D → InstanceDodagState D
  mark_instance s =
      let r =
        rpl_instance_set_changed (record { rpl_instance = s.rpl_instance; head = s.dodags.head }) in
      record { rpl_instance = r.rpl_instance; dodags = record (s.dodags) { head = r.head } }

module _ {D : Type 0} ⦃dl : Utlist (RplEventEl D)⦄ ⦃ut : Uthash DiDodagRef DiDodagRef⦄ where
  -- `rpl_instance_add_dodag` after its `hash_add`.
  abbrev pub instance_add_found :
      HashAdd DiDodagRef DiDodagRef → InstanceDodagState D → InstanceDodagState D
  instance_add_found r s =
      let s' = record s { rpl_instance = with_dodags r.container s.rpl_instance } in
      if r.was_existing
      then s'
      else mark_instance
          (record s' { dodags = dodag_set_rpl_instance s.rpl_instance.key.ref s.dodags })

  unfoldable pub rpl_instance_add_dodag : InstanceDodagState D → InstanceDodagState D
  rpl_instance_add_dodag s =
      let ref = s.dodags.dodag.key.ref in
      instance_add_found (hash_add s.rpl_instance.dodags ref (some ref) ham_overwrite_if_exists) s

  -- `rpl_instance_del_dodag` after its `hash_delete`.
  abbrev pub instance_del_found :
      Option (Bool × HashContainer DiDodagRef DiDodagRef)
      → InstanceDodagState D
      → Option (InstanceDodagState D)
  instance_del_found none s = none
  instance_del_found (some (false, dodags)) s =
      some (record s { rpl_instance = with_dodags dodags s.rpl_instance })
  instance_del_found (some (true, dodags)) s = some (
      mark_instance (record {
        rpl_instance = with_dodags dodags s.rpl_instance;
        dodags = dodag_set_rpl_instance null_rpl_instance s.dodags;
      }))

  unfoldable pub rpl_instance_del_dodag : InstanceDodagState D → Option (InstanceDodagState D)
  rpl_instance_del_dodag s =
      instance_del_found (hash_delete s.rpl_instance.dodags s.dodags.dodag.key.ref) s
