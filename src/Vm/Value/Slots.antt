-- ===== src/Vm/Value/Slots.antt =====
-- Reading and assigning the slots of src/runtime/vm_runtime.c.
use morphl.Prelude.{
  ◌≡◌, refl, ap, ◌∙◌, ap₂, true, false, inl, inr, [], ◌∷◌, Bytes, bytes_eq, bytes_eq_iff,
  bytes_eq_refl, c_string, c_string_idem, Bool-cases, if◌then◌else◌,
}
use morphl.Vm.Value.{
  VmValue, VmValues, null_value, literal_value, ident_value, group_value, no_values, more_values,
  Slots, vm_value_copy, vm_values_copy, vm_set_slot, slot_value,
}

mutual
  unfolding vm_value_copy vm_values_copy

  -- A copy of a copy is the copy.
  pub vm_value_copy_idem : (v : VmValue) → vm_value_copy (vm_value_copy v) ≡ vm_value_copy v
  vm_value_copy_idem null_value = refl
  vm_value_copy_idem (literal_value s) = ap literal_value (c_string_idem s)
  vm_value_copy_idem (ident_value s) = ap ident_value (c_string_idem s)
  vm_value_copy_idem (group_value vs) = ap group_value (vm_values_copy_idem vs)

  vm_values_copy_idem : (vs : VmValues) → vm_values_copy (vm_values_copy vs) ≡ vm_values_copy vs
  vm_values_copy_idem no_values = refl
  vm_values_copy_idem (more_values v vs) =
      ap₂ more_values (vm_value_copy_idem v) (vm_values_copy_idem vs)

slot_value-by_c_string :
    (slots : Slots) (name name' : Bytes) (other : VmValue)
    → c_string name ≡ c_string name'
    → slot_value slots name' other ≡ slot_value slots name other
unfolding slot_value
slot_value-by_c_string [] name name' other e = refl
slot_value-by_c_string (s ∷ slots) name name' other e =
    rw (e, slot_value-by_c_string slots name name' other e) refl

slot_value-vm_set_slot_same :
    (slots : Slots) (name : Bytes) (v other : VmValue)
    → slot_value (vm_set_slot slots name v) name other ≡ vm_value_copy v
unfolding slot_value vm_set_slot
slot_value-vm_set_slot_same [] name v other =
    let same : bytes_eq (c_string (c_string name)) (c_string name) ≡ true =
      rw (c_string_idem name) (bytes_eq_refl (c_string name)) in
    rw same refl
slot_value-vm_set_slot_same (s ∷ slots) name v other =
    elim (Bool-cases (bytes_eq (c_string s.name) (c_string name))) [
      | inl same ↦ rw (same, vm_set_slot) (rw (same, slot_value) refl)
      | inr differ ↦
          rw (differ, vm_set_slot)
            (rw (differ, slot_value) (slot_value-vm_set_slot_same slots name v other))
    ]

slot_value-vm_set_slot_other :
    (slots : Slots) (name other_name : Bytes) (v other : VmValue)
    → bytes_eq (c_string name) (c_string other_name) ≡ false
    → slot_value (vm_set_slot slots name v) other_name other ≡ slot_value slots other_name other
unfolding slot_value vm_set_slot
slot_value-vm_set_slot_other [] name other_name v other h = rw (c_string_idem name) (rw h refl)
slot_value-vm_set_slot_other (s ∷ slots) name other_name v other h =
    elim (Bool-cases (bytes_eq (c_string s.name) (c_string name))) [
      | inl same ↦
          let differ : bytes_eq (c_string s.name) (c_string other_name) ≡ false =
            rw ((bytes_eq_iff (c_string s.name) (c_string name)).0 same) h in
          rw (same, vm_set_slot) (rw (differ, slot_value) refl)
      | inr differ ↦
          rw (differ, vm_set_slot)
            (elim (Bool-cases (bytes_eq (c_string s.name) (c_string other_name))) [
              | inl found ↦ rw (found, slot_value) refl
              | inr missing ↦
                  rw (missing, slot_value)
                    (slot_value-vm_set_slot_other slots name other_name v other h)
            ])
    ]

-- Assigning a slot changes what that name stands for to a copy of the value, and no other name,
-- where names are compared up to their first NUL.
pub slot_value-vm_set_slot :
    (slots : Slots) (name other_name : Bytes) (v other : VmValue)
    → slot_value (vm_set_slot slots name v) other_name other ≡ (
        if bytes_eq (c_string name) (c_string other_name)
        then vm_value_copy v
        else slot_value slots other_name other)
slot_value-vm_set_slot slots name other_name v other =
    elim (Bool-cases (bytes_eq (c_string name) (c_string other_name))) [
      | inl same ↦ rw same (
          slot_value-by_c_string _ name other_name other ((bytes_eq_iff _ _).0 same)
          ∙ slot_value-vm_set_slot_same slots name v other)
      | inr differ ↦ rw differ (slot_value-vm_set_slot_other slots name other_name v other differ)
    ]
