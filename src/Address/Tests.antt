-- ===== src/Address/Tests.antt =====
-- Tests and witnesses for the IPv4 arithmetic.
use iop.Base.{◌≡◌, ◌↔◌, refl, true, false, text, some}
use iop.Base.Int.{pos}
use iop.Text.Split.{split}
use iop.Text.Number.{parse_int}
use iop.Address.{ip_to_int, prefix_of, network_of, mask_of, is_ip_in_cidr}
use iop.Address.Range.{is_ip_in_cidr_iff, InBlock}

reads_address : ip_to_int (text "10.0.1.7") ≡ 167772423
unfolding ip_to_int split parse_int
reads_address = refl

-- A text that is no address is still read as a number.
reads_anything : ip_to_int (text "10.x.1") ≡ 1
unfolding ip_to_int split parse_int
reads_anything = refl

in_network : is_ip_in_cidr (text "10.0.1.7") (text "10.0.0.0/23") ≡ true
unfolding is_ip_in_cidr ip_to_int prefix_of network_of mask_of split parse_int
in_network = refl

out_of_network : is_ip_in_cidr (text "10.0.2.0") (text "10.0.0.0/23") ≡ false
unfolding is_ip_in_cidr ip_to_int prefix_of network_of mask_of split parse_int
out_of_network = refl

prefix_23 : prefix_of (text "10.0.0.0/23") ≡ some (pos 23)
unfolding prefix_of split parse_int
prefix_23 = refl

is_ip_in_cidr_iff_example :
    (is_ip_in_cidr (text "10.0.1.7") (text "10.0.0.0/23") ≡ true)
    ↔ InBlock 9 (ip_to_int (network_of (text "10.0.0.0/23"))) (ip_to_int (text "10.0.1.7"))
is_ip_in_cidr_iff_example =
    is_ip_in_cidr_iff (text "10.0.1.7") (text "10.0.0.0/23") 23 9 prefix_23 refl
