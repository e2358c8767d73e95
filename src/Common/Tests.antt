-- ===== src/Common/Tests.antt =====
-- MAC addresses that are accepted and refused.
use esp32_home_display.Prelude.{◌≡◌, refl, false}
use esp32_home_display.Text.{codes, upper}
use esp32_home_display.Result.{ok}
use esp32_home_display.Common.{mac_address_re, validate_mac_address}
use esp32_home_display.Common.Mac.{validate_mac_address_canonical}

short_mac : mac_address_re (codes "AA:BB:CC:DD:EE") ≡ false
unfolding mac_address_re
short_mac = refl

long_mac : mac_address_re (codes "AA:BB:CC:DD:EE:FF:00") ≡ false
unfolding mac_address_re
long_mac = refl

validate_mac_address_canonical_example :
    (codes "AA:BB:CC:DD:EE:0F" ≡ upper (codes "aa:bb:Cc:dd:ee:0f"))
    × (validate_mac_address (codes "AA:BB:CC:DD:EE:0F") ≡ ok (codes "AA:BB:CC:DD:EE:0F"))
unfolding validate_mac_address mac_address_re upper
validate_mac_address_canonical_example =
    validate_mac_address_canonical (codes "aa:bb:Cc:dd:ee:0f") (codes "AA:BB:CC:DD:EE:0F") refl
