-- ===== src/Linux/Naming.antt =====
-- tiles/linux: the names that VXLAN and VLAN claim.
use pktc.Common.{
  ℕ, ◌≤◌, ◌≡◌, refl, true, false, Text, bytes, [], ◌∷◌, ◌++◌, length, any, is_digit, All, arith,
  length-append, append-ne-nil, if◌then◌else◌, some,
}
use pktc.Diag.{plain, name_taken, ok, err}
use pktc.Std.Strconv.{format_uint}
use pktc.Std.Decimal.{length-format_uint, format_uint-digits}
use pktc.Env.{Env, is_used, is_illegal, claim}
use pktc.Env.Names.{IsName, IsName-valid_name}
use pktc.Linux.Vxlan.{name_device}
use pktc.Linux.Vlan.{vlan_name}

any-append :
    (s t : Text)
    → any is_illegal s ≡ false
    → any is_illegal t ≡ false
    → any is_illegal (s ++ t) ≡ false
any-append [] t h k = k
any-append (c ∷ s) t h k = ground (arith, any-append s t)

digits-legal : (t : Text) → All (λ c. is_digit c ≡ true) t → any is_illegal t ≡ false
digits-legal [] a = refl
digits-legal (c ∷ t) (d, a) = let rest = digits-legal t a in ground arith

vxlan-IsName : (n : ℕ) → n ≤ 16777215 → IsName (bytes "vxlan" ++ format_uint n)
unfolding bytes
vxlan-IsName n h = record {
  nonempty = cc;
  fits =
      omega (
        arith,
        length-append (bytes "vxlan") (format_uint n),
        length-format_uint 7 n (omega arith),
      );
  legal =
      any-append (bytes "vxlan") (format_uint n) refl
        (digits-legal (format_uint n) (format_uint-digits n));
}

-- A VXLAN device with a concrete VNI of 24 bits is named after it, and is refused exactly where
-- that name is taken: two devices with one VNI cannot both be made.
pub name_device_taken :
    (n : ℕ) (e : Env)
    → n ≤ 16777215
    → name_device (some n) e ≡ (
        if is_used (bytes "vxlan" ++ format_uint n) e.used
        then err (plain (name_taken (bytes "vxlan" ++ format_uint n)))
        else ok (
          bytes "vxlan" ++ format_uint n,
          record e { used = (bytes "vxlan" ++ format_uint n) ∷ e.used },
        ))
unfolding name_device claim
name_device_taken n e h = rw (IsName-valid_name (bytes "vxlan" ++ format_uint n) (vxlan-IsName n h))

-- The name of a tagged interface, the parent's with the tag's number behind it, is valid where the
-- parent's name is and has at most ten bytes.
pub vlan_name-IsName :
    (dev : Text) (n : ℕ) → IsName dev → length dev ≤ 10 → n ≤ 4094 → IsName (vlan_name dev n)
unfolding vlan_name
vlan_name-IsName dev n v short h = record {
  nonempty = append-ne-nil dev b'.' (format_uint n);
  fits = omega (
    arith,
    length-append dev (b'.' ∷ format_uint n),
    length-format_uint 3 n (omega arith),
    short,
  );
  legal =
      any-append dev (b'.' ∷ format_uint n) v.legal
        (digits-legal (format_uint n) (format_uint-digits n));
}
