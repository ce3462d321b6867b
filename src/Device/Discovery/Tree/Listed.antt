-- ===== src/Device/Discovery/Tree/Listed.antt =====
-- Which entries of a device tree are listed as displays.
use tryxctl.Prelude.{
  ℕ, ◌^◌, ◌≡◌, refl, Bool, true, false, Option, none, some, List, [], ◌∷◌, if◌then◌else◌,
  starts_with, All, All-append, Member, here, there, Member-append_right, Bool-cases, inl, inr,
  arith,
}
use mathlib.Core.Path.{subst}
use tryxctl.Prelude.Text.{codes}
use tryxctl.Prelude.Sorting.{IsSortedBy, sort_by-IsSortedBy, sort_by-Member, sort_by-All}
use tryxctl.Device.Product.{vendor_id}
use tryxctl.Device.Discovery.Ids.{parse_sysfs_name}
use tryxctl.Device.Discovery.Tree
use tryxctl.Device.Discovery.Tree.{
  Access, Entry, LegacyDevice, PrinterDevice, legacy_product_prefix, legacy_vendor_id,
  legacy_device, printer_device, legacy_devices_in, read_hex,
}

module _ (dev : List ℕ) (path_access : List ℕ → Access) where
  collect-complete :
      {A : Type 0} (f : Entry → Option A) (entry : Entry) (a : A) (entries : List Entry)
      → f entry ≡ some a
      → Member entry entries
      → Member a (Tree.collect dev path_access f entries)
  unfolding Tree.collect
  collect-complete f entry a [] e m = elim m [ ]
  collect-complete f entry a (_ ∷ entries) e here = simp e here
  collect-complete f entry a (other ∷ entries) e (there m) =
      Member-append_right _ (collect-complete f entry a entries e m)

  All-step :
      {A : Type 0} (f : Entry → Option A) (P : A → Type 0) (entry : Entry) (found : Option A)
      → f entry ≡ found
      → ((a : A) → f entry ≡ some a → P a)
      → All P (elim found [ none ↦ [] | some a ↦ a ∷ [] ])
  All-step f P entry none e h = tt
  All-step f P entry (some a) e h = (h a e, tt)

  collect-sound :
      {A : Type 0} (f : Entry → Option A) (P : A → Type 0) (entries : List Entry)
      → ((entry : Entry) (a : A) → Member entry entries → f entry ≡ some a → P a)
      → All P (Tree.collect dev path_access f entries)
  unfolding Tree.collect
  collect-sound f P [] h = tt
  collect-sound f P (entry ∷ entries) h =
      All-append P _ (Tree.collect dev path_access f entries)
        (All-step f P entry (f entry) refl (λ a e. h entry a here e))
        (collect-sound f P entries (λ other a m e. h other a (there m) e))

  HasPrefix : Option LegacyDevice → Type 0
  HasPrefix none = Unit
  HasPrefix (some d) = starts_with d.product_string legacy_product_prefix ≡ true

  with_product-HasPrefix :
      (entry : Entry) (place : ℕ × List ℕ) (product : Option (List ℕ))
      → HasPrefix (Tree.with_product dev path_access entry place product)
  unfolding Tree.with_product Tree.legacy_of HasPrefix
  with_product-HasPrefix entry place none = tt
  with_product-HasPrefix entry (bus, ports) (some text) =
      elim (Bool-cases (starts_with text legacy_product_prefix)) [
        | inl e ↦ simp e refl
        | inr e ↦ simp e tt
      ]

  guarded-HasPrefix :
      (test : Bool) (d : Option LegacyDevice) → HasPrefix d → HasPrefix (if test then d else none)
  unfolding HasPrefix
  guarded-HasPrefix true d h = h
  guarded-HasPrefix false d h = tt

  placed-HasPrefix :
      (entry : Entry) (place : Option (ℕ × List ℕ))
      → HasPrefix (
          Tree.and_then place (λ place.
            if Tree.is_number legacy_vendor_id (read_hex (2 ^ 16) entry.device (codes "idVendor"))
            then Tree.with_product dev path_access entry place
                (Tree.read_attr entry.device (codes "product"))
            else none))
  unfolding HasPrefix Tree.and_then
  placed-HasPrefix entry none = tt
  placed-HasPrefix entry (some place) =
      guarded-HasPrefix
        (Tree.is_number legacy_vendor_id (read_hex (2 ^ 16) entry.device (codes "idVendor"))) _
        (with_product-HasPrefix entry place (Tree.read_attr entry.device (codes "product")))

  HasPrefix-some :
      (found : Option LegacyDevice) (d : LegacyDevice)
      → found ≡ some d
      → HasPrefix found
      → HasPrefix (some d)
  HasPrefix-some found d e h = subst HasPrefix e h

  legacy_device-prefix :
      (entry : Entry) (d : LegacyDevice)
      → legacy_device dev path_access entry ≡ some d
      → starts_with d.product_string legacy_product_prefix ≡ true
  unfolding legacy_device HasPrefix
  legacy_device-prefix entry d e =
      HasPrefix-some (legacy_device dev path_access entry) d e
        (placed-HasPrefix entry (parse_sysfs_name entry.device.name))

  -- The listing is in the order of the identities, has the display of every entry that is one, and
  -- has nothing else: each display listed comes from an entry, with a product name of the prefix.
  pub legacy_devices_in-IsListing :
      (entries : List Entry)
      → IsSortedBy (λ (d : LegacyDevice). d.id) (legacy_devices_in dev path_access entries)
        × ((entry : Entry) (d : LegacyDevice)
            → legacy_device dev path_access entry ≡ some d
            → Member entry entries
            → Member d (legacy_devices_in dev path_access entries))
        × All
            (λ (d : LegacyDevice).
              (entry : Entry) × Member entry entries
              × (legacy_device dev path_access entry ≡ some d)
              × (starts_with d.product_string legacy_product_prefix ≡ true))
            (legacy_devices_in dev path_access entries)
  unfolding legacy_devices_in HasPrefix
  legacy_devices_in-IsListing entries = (
    sort_by-IsSortedBy (λ (d : LegacyDevice). d.id) _,
    λ entry d e m.
        sort_by-Member _ d _ (collect-complete (legacy_device dev path_access) entry d entries e m),
    sort_by-All _ _ _ (
        collect-sound (legacy_device dev path_access) _ entries
          (λ entry d m e. (entry, m, e, legacy_device-prefix entry d e))),
  )

  placed_once :
      (entry : Entry) (place : Option (ℕ × List ℕ)) (vendor : Option ℕ) (p : PrinterDevice)
      → Tree.and_then place (λ x.
        if Tree.is_number vendor_id vendor
        then some (Tree.printer_of dev path_access entry x)
        else none)
        ≡ some p
      → Tree.and_then place (λ x.
        if Tree.is_number legacy_vendor_id vendor
        then Tree.with_product dev path_access entry x
            (Tree.read_attr entry.device (codes "product"))
        else none)
        ≡ none
  unfolding Tree.and_then Tree.is_number
  placed_once entry none vendor p e = refl
  placed_once entry (some place) none p e = refl
  placed_once entry (some place) (some n) p e = ground (arith, e)

  -- No entry is listed both as a printer-class display and as a legacy one.
  pub printer_device-legacy_device :
      (entry : Entry) (p : PrinterDevice)
      → printer_device dev path_access entry ≡ some p
      → legacy_device dev path_access entry ≡ none
  unfolding printer_device legacy_device
  printer_device-legacy_device entry p e =
      placed_once entry (parse_sysfs_name entry.device.name)
        (read_hex (2 ^ 16) entry.device (codes "idVendor")) p e
