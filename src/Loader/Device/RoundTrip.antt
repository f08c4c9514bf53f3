-- ===== src/Loader/Device/RoundTrip.antt =====
-- The device's number, printed by the extension and read by the loader.
use pgsleuth.Base.{
  to_string, ℕ, ◌+◌, ◌*◌, ◌/◌, ◌%◌, ◌^◌, ◌≤◌, ◌<◌, String, ◌≡◌, ◌&&◌, none, some, arith, ltb,
  if◌then◌else◌, u32_max, and_then-some, trim, split_once,
}
use pgsleuth.Base.Bits.{bit_or-shift}
use pgsleuth.Base.Decimal.{parse_u32}
use pgsleuth.Base.Decimal.RoundTrip.{
  parse_unsigned-to_string, to_string-AllDigits, trim-AllDigits, split_once-AllDigits,
}
use pgsleuth.Loader.Device.{wal_device, kernel_dev_t, parse_parts, parse_kernel_dev_t}

read_back : (n : ℕ) → n ≤ u32_max → parse_u32 (trim (to_string n)) ≡ some n
unfolding parse_u32
read_back n h =
    rw (trim-AllDigits (to_string n) (to_string-AllDigits n)) (parse_unsigned-to_string u32_max n h)

-- Of two numbers in the kernel's ranges, it is their encoding.
kernel_dev_t-sum :
    (major minor : ℕ)
    → major < 2 ^ 12
    → minor < 2 ^ 20
    → kernel_dev_t major minor ≡ some (major * 2 ^ 20 + minor)
unfolding kernel_dev_t
kernel_dev_t-sum major minor h k = ground (arith, bit_or-shift 20 major minor k)

-- The loader reads what the extension prints: for device numbers in the kernel's ranges, the encoding `major * 2^20 + minor`, and for others that are u32 values, nothing.
pub parse_kernel_dev_t-wal_device :
    (major minor : ℕ)
    → major ≤ u32_max
    → minor ≤ u32_max
    → parse_kernel_dev_t (wal_device major minor)
      ≡ (if ltb major (2 ^ 12) && ltb minor (2 ^ 20) then some (major * 2 ^ 20 + minor) else none)
unfolding parse_kernel_dev_t wal_device parse_parts kernel_dev_t
parse_kernel_dev_t-wal_device major minor h k =
    rw
      (
        split_once-AllDigits (to_string major) (to_string minor) (to_string-AllDigits major),
        read_back major h,
        read_back minor k,
      )
      (ground (arith, bit_or-shift 20 major minor))

kernel_dev_t-fits :
    (major minor d : ℕ)
    → kernel_dev_t major minor ≡ some d
    → (d ≤ u32_max) × (kernel_dev_t (d / 2 ^ 20) (d % 2 ^ 20) ≡ some d)
unfolding kernel_dev_t
kernel_dev_t-fits major minor d e =
    ground (arith, bit_or-shift 20 major minor, bit_or-shift 20 (d / 2 ^ 20) (d % 2 ^ 20))

-- An encoding that is read from any text fits a u32, and gives its two numbers back.
pub parse_kernel_dev_t-fits :
    (s : String) (d : ℕ)
    → parse_kernel_dev_t s ≡ some d
    → (d ≤ u32_max) × (kernel_dev_t (d / 2 ^ 20) (d % 2 ^ 20) ≡ some d)
unfolding parse_kernel_dev_t parse_parts
parse_kernel_dev_t-fits s d e =
    let ((major_s, minor_s), _, read) = and_then-some (split_once b':' s) _ d e in
    let (major, _, read_major) = and_then-some (parse_u32 (trim major_s)) _ d read in
    let (minor, _, read_minor) = and_then-some (parse_u32 (trim minor_s)) _ d read_major in
    kernel_dev_t-fits major minor d read_minor
