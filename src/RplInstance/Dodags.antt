-- ===== src/RplInstance/Dodags.antt =====
-- What `rpl_instance_add_dodag` and `rpl_instance_del_dodag` of src/data_info/rpl_instance.c do to
-- the DODAGs of an instance.
use foren6_analyzer.Prelude.{
  Bool, true, false, Bool-cases, Option, none, some, is_some, if◌then◌else◌, Returns, ==_iff, ◌==◌,
  ◌≡◌, refl, sym, ap, ◌∙◌, inl, inr, arith,
}
use foren6_analyzer.Utlist.{Utlist}
use foren6_analyzer.Uthash.{Uthash}
use foren6_analyzer.Refs.{DiDodagRef, DiRplInstanceRef, same_dodag_ref, dodag_ref_key}
use foren6_analyzer.RplEvent.{RplEventEl}
use foren6_analyzer.HashContainer.{
  HashContainer, HashAdd, ham_overwrite_if_exists, hash_add, hash_delete,
}
use foren6_analyzer.HashContainer.Contents.{
  get, IsMap, Added, Added-overwrite, Deleted, hash_add-Added, hash_delete-Deleted,
}
use foren6_analyzer.Dodag.{DodagState, dodag_set_rpl_instance, dodag_set_changed}
use foren6_analyzer.RplInstance.{
  InstanceDodagState, mark_instance, rpl_instance_set_changed, instance_add_found,
  rpl_instance_add_dodag, instance_del_found, rpl_instance_del_dodag, null_rpl_instance,
}

module _ {D : Type 0} ⦃dl : Utlist (RplEventEl D)⦄ where
  set_rpl_instance-rpl_instance :
      (ref : DiRplInstanceRef) (s : DodagState D)
      → (dodag_set_rpl_instance ref s).dodag.rpl_instance ≡ ref
  unfolding dodag_set_rpl_instance dodag_set_changed
  set_rpl_instance-rpl_instance ref s =
      elim (Bool-cases (s.dodag.rpl_instance.rpl_instance == ref.rpl_instance)) [
        | inl same ↦ rw same (
            ap (λ n. record { rpl_instance = n })
              ((==_iff s.dodag.rpl_instance.rpl_instance ref.rpl_instance).0 same))
        | inr other ↦ rw other refl
      ]

module _ {D : Type 0} ⦃dl : Utlist (RplEventEl D)⦄ ⦃ut : Uthash DiDodagRef DiDodagRef⦄
    (s : InstanceDodagState D) where
  abbrev ref : DiDodagRef
  ref = s.dodags.dodag.key.ref

  -- A DODAG that the instance has says so.
  abbrev pub Consistent : Type 0
  Consistent =
      is_some (get s.rpl_instance.dodags ref) ≡ true
      → s.dodags.dodag.rpl_instance ≡ s.rpl_instance.key.ref

  -- After `rpl_instance_add_dodag` the instance has the DODAG, and the DODAG says so.
  pub record Has (t : InstanceDodagState D) : Type 0 where
    pub ok : IsMap t.rpl_instance.dodags
    pub stored :
        (j : DiDodagRef)
        → get t.rpl_instance.dodags j
          ≡ (if same_dodag_ref ref j then some ref else get s.rpl_instance.dodags j)
    pub says : t.dodags.dodag.rpl_instance ≡ s.rpl_instance.key.ref

  add_found-Has :
      (r : HashAdd DiDodagRef DiDodagRef)
      → Consistent
      → Added s.rpl_instance.dodags ref ref ham_overwrite_if_exists r
      → Has (instance_add_found r s)
  unfolding mark_instance rpl_instance_set_changed
  add_found-Has r c a =
      let added : r.added ≡ true = Added-overwrite r a in
      let stored : (j : DiDodagRef)
          → get r.container j
            ≡ (if same_dodag_ref ref j then some ref else get s.rpl_instance.dodags j) =
        rw added at a.stored in
      elim (Bool-cases r.was_existing) [
        | inl known ↦
            rw known (record { ok = a.ok; stored = stored; says = c (sym a.existed ∙ known) })
        | inr fresh ↦ rw fresh (record {
          ok = a.ok;
          stored = stored;
          says = set_rpl_instance-rpl_instance s.rpl_instance.key.ref s.dodags;
        })
      ]

  -- If the instance's container has no two elements with one key, and the DODAG, when the instance
  -- has it, says so, then after `rpl_instance_add_dodag` the instance has the DODAG and the others
  -- it had, and the DODAG says that it is the instance's.
  pub rpl_instance_add_dodag-Has :
      IsMap s.rpl_instance.dodags → Consistent → Has (rpl_instance_add_dodag s)
  unfolding rpl_instance_add_dodag
  rpl_instance_add_dodag-Has d c =
      add_found-Has (hash_add s.rpl_instance.dodags ref (some ref) ham_overwrite_if_exists) c (
        hash_add-Added s.rpl_instance.dodags ref (some ref) ham_overwrite_if_exists d
          (λ e. ground arith))

  -- After `rpl_instance_del_dodag` the instance does not have the DODAG.
  pub record Lacks (t : InstanceDodagState D) : Type 0 where
    pub ok : IsMap t.rpl_instance.dodags
    pub stored :
        (j : DiDodagRef)
        → get t.rpl_instance.dodags j
          ≡ (if same_dodag_ref ref j then none else get s.rpl_instance.dodags j)
    pub says : t.dodags.dodag.rpl_instance ≡ (
        if is_some (get s.rpl_instance.dodags ref)
        then null_rpl_instance
        else s.dodags.dodag.rpl_instance)

  del_found-Lacks :
      (o : Option (Bool × HashContainer DiDodagRef DiDodagRef))
      → Returns (Deleted s.rpl_instance.dodags ref) o
      → Returns Lacks (instance_del_found o s)
  unfolding mark_instance rpl_instance_set_changed
  del_found-Lacks none h = h
  del_found-Lacks (some (false, dodags)) h = record {
    ok = h.ok;
    stored = h.stored;
    says = rw (sym h.found) refl;
  }
  del_found-Lacks (some (true, dodags)) h = record {
    ok = h.ok;
    stored = h.stored;
    says = rw (sym h.found) (set_rpl_instance-rpl_instance null_rpl_instance s.dodags);
  }

  -- If the instance's container has no two elements with one key, `rpl_instance_del_dodag` returns.
  -- The instance then has every DODAG that it had but this one, which says that it has no instance
  -- if it was the instance's, and otherwise says what it said.
  pub rpl_instance_del_dodag-Lacks :
      IsMap s.rpl_instance.dodags → Returns Lacks (rpl_instance_del_dodag s)
  unfolding rpl_instance_del_dodag
  rpl_instance_del_dodag-Lacks d =
      del_found-Lacks (hash_delete s.rpl_instance.dodags ref)
        (hash_delete-Deleted s.rpl_instance.dodags ref d)
