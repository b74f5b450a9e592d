-- ===== src/Network/ParseTests.antt =====
-- Addresses and networks as texts, by example.
use macvz.Prelude.{codes, codes_key, text_key, number_key, ◌+◌, ◌*◌, ◌^◌, ◌≡◌, refl, none, some}
use macvz.Network.Addr.{v6, to4, ip_text}
use macvz.Network.Parse.{parse_ip_text, parse_cidr_text, net_key, net_text}
use macvz.Prelude.Strings.{split, cut, join, digits_value, itoa}
use macvz.Network.Print.{ip_string}
use mathlib.Core.Option.{map as option_map}

parse_v4 : parse_ip_text (codes "10.1.2.3") ≡ some (v6 (0xffff * 2 ^ 32 + 0x0a010203))
unfolding parse_ip_text split digits_value
parse_v4 = refl

parse_v4_zero : parse_ip_text (codes "10.1.02.3") ≡ none
unfolding parse_ip_text split digits_value
parse_v4_zero = refl

parse_v6 :
    parse_ip_text (codes "fd00::1:10.0.0.1") ≡ some (v6 (0xfd00 * 2 ^ 112 + 2 ^ 32 + 0x0a000001))
unfolding parse_ip_text split digits_value
parse_v6 = refl

cidr_masked :
    option_map net_text (parse_cidr_text (codes "10.1.2.3/8"))
    ≡ some (record { addr = 0xffff * 2 ^ 32 + 0x0a000000; ones = 8 })
unfolding parse_cidr_text split cut digits_value net_text to4 ip_text
cidr_masked = refl

printed_v6 :
    option_map ip_string (parse_ip_text (codes "fd00:0:0:1:0:0:0:9")) ≡ some (codes "fd00:0:0:1::9")
unfolding parse_ip_text split digits_value ip_string itoa join
printed_v6 = refl

printed_v4 : option_map ip_string (parse_ip_text (codes "10.99.0.1")) ≡ some (codes "10.99.0.1")
unfolding parse_ip_text split digits_value ip_string itoa join
printed_v4 = refl
