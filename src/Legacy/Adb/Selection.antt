-- ===== src/Legacy/Adb/Selection.antt =====
-- Which transport is chosen, and which paths are made.
mod Tests
use tryxctl.Prelude.{
  ℕ, ◌≡◌, ◌≢◌, refl, ap, Bool, true, false, Option, none, some, List, [], ◌∷◌, ◌++◌, Result, ok,
  err, Bytes, equal, equal_iff, starts_with, All, arith, Bool-cases, Option-cases, inl, inr, ◌⊎◌,
  ◌∙◌, sym,
}
use tryxctl.Legacy.Adb
use tryxctl.Legacy.Adb.{
  AdbDevice, has_serial, has_usb, find_device, the_only, select, remote_path, media_dir,
  is_safe_media_name,
}

-- A device is in a list of devices.
pub data Listed (d : AdbDevice) : List AdbDevice → Type 0 where
  here : {ds : List AdbDevice} → Listed d (d ∷ ds)
  there : {e : AdbDevice} {ds : List AdbDevice} → Listed d ds → Listed d (e ∷ ds)

find_device_sound :
    (test : AdbDevice → Bool) (devices : List AdbDevice) (d : AdbDevice)
    → find_device (some test) devices ≡ some d
    → Listed d devices × (test d ≡ true)
unfolding find_device
find_device_sound test [] d h = absurd (ground (arith, h))
find_device_sound test (e ∷ ds) d h = elim (Bool-cases (test e)) [
  | inl fits ↦ let same : e ≡ d = ground (arith, h, fits) in rw (sym same) (here, fits)
  | inr other ↦
      let (listed, fits) = find_device_sound test ds d (rw other at h) in (there listed, fits)
]

-- Why a device was chosen: by its serial, by the bus position, or as the only one when there is
-- nothing to match on.
pub Chosen : List AdbDevice → Option Bytes → Option Bytes → AdbDevice → Type 0
Chosen devices usb_serial sysfs_name d =
    ((s : Bytes) × (usb_serial ≡ some s) × (d.serial ≡ s))
    ⊎ (((n : Bytes) × (sysfs_name ≡ some n) × (d.usb ≡ some n))
        ⊎ ((usb_serial ≡ none) × (sysfs_name ≡ none) × (devices ≡ d ∷ [])))

has_usb_sound : (n : Bytes) (d : AdbDevice) → has_usb n d ≡ true → d.usb ≡ some n
unfolding has_usb
has_usb_sound n d h = elim (Option-cases d.usb) [
  | inl e ↦ absurd (ground (arith, e, h))
  | inr (u, e) ↦ ground (arith, e, h, equal_iff u n)
]

the_only_sound :
    (devices : List AdbDevice) (d : AdbDevice) → the_only devices ≡ some d → devices ≡ d ∷ []
unfolding the_only
the_only_sound [] d h = absurd (ground (arith, h))
the_only_sound (e ∷ []) d h = ground (arith, h)
the_only_sound (e ∷ f ∷ ds) d h = absurd (ground (arith, h))

only_Chosen : (d : AdbDevice) → Listed d (d ∷ []) × Chosen (d ∷ []) none none d
unfolding Chosen
only_Chosen d = (here, inr (inr (refl, refl, refl)))

by_bus :
    (devices : List AdbDevice) (usb_serial : Option Bytes) (n : Bytes) (d : AdbDevice)
    → find_device (some (has_usb n)) devices ≡ some d
    → Listed d devices × Chosen devices usb_serial (some n) d
unfolding Chosen
by_bus devices usb_serial n d h =
    let (listed, fits) = find_device_sound (has_usb n) devices d h in
    (listed, inr (inl (n, refl, has_usb_sound n d fits)))

by_serial :
    (devices : List AdbDevice) (s : Bytes) (sysfs_name : Option Bytes) (d : AdbDevice)
    → find_device (some (has_serial s)) devices ≡ some d
    → Listed d devices × Chosen devices (some s) sysfs_name d
unfolding Chosen has_serial
by_serial devices s sysfs_name d h =
    let (listed, fits) = find_device_sound (has_serial s) devices d h in
    (listed, inl (s, refl, (equal_iff d.serial s).0 fits))

-- A chosen transport is one of those listed, and has the serial or the bus position that was asked
-- for; without either, it is the only one.
pub select-Chosen :
    (devices : List AdbDevice) (usb_serial sysfs_name : Option Bytes) (d : AdbDevice)
    → select devices usb_serial sysfs_name ≡ some d
    → Listed d devices × Chosen devices usb_serial sysfs_name d
unfolding select find_device Adb.option_map
select-Chosen devices none none d h = rw (the_only_sound devices d h) (only_Chosen d)
select-Chosen devices none (some n) d h =
    elim (Option-cases (find_device (some (has_usb n)) devices)) [
      | inl e ↦ absurd (ground (arith, e, h))
      | inr (x, e) ↦ by_bus devices none n d (ground (arith, e, h))
    ]
select-Chosen devices (some s) none d h =
    elim (Option-cases (find_device (some (has_serial s)) devices)) [
      | inl e ↦ absurd (ground (arith, e, h))
      | inr (x, e) ↦ by_serial devices s none d (ground (arith, e, h))
    ]
select-Chosen devices (some s) (some n) d h =
    elim (Option-cases (find_device (some (has_serial s)) devices)) [
      | inr (x, e) ↦ by_serial devices s (some n) d (ground (arith, e, h))
      | inl e ↦ elim (Option-cases (find_device (some (has_usb n)) devices)) [
        | inl e2 ↦ absurd (ground (arith, e, e2, h))
        | inr (x, e2) ↦ by_bus devices (some s) n d (ground (arith, e, e2, h))
      ]
    ]

is_safe_byte-plain : (bs : Bytes) → Adb.all_bytes Adb.is_name_byte bs ≡ true → All (λ c. c ≢ 47) bs
unfolding Adb.all_bytes Adb.is_name_byte
is_safe_byte-plain [] h = tt
is_safe_byte-plain (b ∷ bs) h =
    ((λ e. ground (arith, h, e)), is_safe_byte-plain bs (ground (arith, h)))

dot_refused : (name rest path : Bytes) → remote_path name ≡ ok path → name ≡ 46 ∷ rest → ⊥
unfolding remote_path is_safe_media_name starts_with
dot_refused name rest path h e = ground (arith, rw e at h)

-- A path that is made is the media directory and a name without a separator that does not start
-- with a dot: no name leads out of the directory.
pub remote_path-inside :
    (name path : Bytes)
    → remote_path name ≡ ok path
    → (path ≡ media_dir ++ name) × All (λ c. c ≢ 47) name × ((rest : Bytes) → name ≢ 46 ∷ rest)
unfolding remote_path is_safe_media_name starts_with
remote_path-inside name path h = (
  ground (arith, h),
  is_safe_byte-plain name (ground (arith, h)),
  λ rest e. dot_refused name rest path h e,
)
