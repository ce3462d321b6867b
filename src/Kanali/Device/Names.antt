-- ===== src/Kanali/Device/Names.antt =====
-- The names that `Device` gives to uploads.
use tryxctl.Prelude.{
  ℕ, ◌+◌, ◌≡◌, ◌≤◌, Bool, true, ◌&&◌, [], ◌∷◌, ◌++◌, length, length-append, Bytes, equal,
  starts_with, arith,
}
use tryxctl.Kanali.Device
use tryxctl.Kanali.Device.{is_safe_device_name}

all_bytes-append :
    (test : ℕ → Bool) (a b : Bytes)
    → Device.all_bytes test (a ++ b) ≡ (Device.all_bytes test a && Device.all_bytes test b)
unfolding Device.all_bytes
all_bytes-append test [] b = ground arith
all_bytes-append test (x ∷ a) b = ground (arith, all_bytes-append test a b)

-- A safe name stays safe when a suffix of safe bytes follows, unless it becomes too long.
pub is_safe_device_name-append :
    (name suffix : Bytes)
    → is_safe_device_name name ≡ true
    → Device.all_bytes Device.is_name_byte suffix ≡ true
    → length name + length suffix ≤ 128
    → is_safe_device_name (name ++ suffix) ≡ true
unfolding is_safe_device_name equal starts_with
is_safe_device_name-append [] suffix h k l = absurd (ground (arith, h))
is_safe_device_name-append (c ∷ cs) suffix h k l =
    ground (
      arith,
      h,
      k,
      l,
      all_bytes-append Device.is_name_byte (c ∷ cs) suffix,
      length-append cs suffix,
    )
