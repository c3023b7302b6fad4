-- ===== src/Net/Tests.antt =====
-- Tests of the address functions, and the theorems at concrete addresses.
use alike.Base.{ℕ, ◌-◌, ◌^◌, List, true, false, some, ◌≡◌, ◌↔◌, refl, arith, codes}
use alike.Net.{check_ip, mask_to_cidr, cidr_to_mask}
use alike.Net.Address.{IsAddress, check_ip_iff}
use alike.Net.Mask.{mask_value, cidr_to_mask_lem}

check_ip_tests :
    (check_ip (codes "10.0.255.1") ≡ true)
    × (check_ip (codes "10.0.256.1") ≡ false)
    × (check_ip (codes "1.2.3") ≡ false)
    × (check_ip (codes "1.2.3.4.5") ≡ false)
    × (check_ip (codes "001.02.3.199") ≡ true)
unfolding check_ip
check_ip_tests = (refl, refl, refl, refl, refl)

check_ip_iff_example : (check_ip (codes "10.0.255.1") ≡ true) ↔ IsAddress (codes "10.0.255.1")
check_ip_iff_example = check_ip_iff (codes "10.0.255.1")

cidr_to_mask_lem_example :
    (m : List ℕ) × (cidr_to_mask 20 ≡ some m)
    × (check_ip m ≡ true)
    × (mask_value m ≡ 2 ^ 32 - 2 ^ (32 - 20))
    × (mask_to_cidr m ≡ 20)
cidr_to_mask_lem_example = cidr_to_mask_lem 20 (omega arith)
