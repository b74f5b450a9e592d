-- ===== src/Workload/Tests.antt =====
-- Names of Pods, and the theorems there. The digest is a function of the documented shape.
use macvz.Prelude.{
  All, length, Text, codes, codes_key, text_key, number_key, ℕ, zero, suc, ◌≤◌, ◌≡◌, refl, true, [],
  ◌∷◌, ◌++◌, arith,
}
use macvz.Workload.{
  dash, sanitize_loop, trim_right, trim_left, sanitize_dns_label, join_by, workload_id,
}
use macvz.Drain.{vm_prefix, is_macvz_vm}
use macvz.Workload.Label.{IsLabel, IsHexDigit, IsHexSum, workload_id-IsLabel}
use macvz.Workload.Prefix.{workload_id-is_macvz_vm, workload_id_collides}

abbrev zeros : ℕ → Text
zeros zero = []
zeros (suc n) = 48 ∷ zeros n

abbrev digest : Text → Text
digest s = zeros 64

zeros-hex : (n : ℕ) → All IsHexDigit (zeros n)
zeros-hex zero = tt
zeros-hex (suc n) = (refl, zeros-hex n)

digest-IsHexSum : IsHexSum digest
digest-IsHexSum s = (zeros-hex 64, refl)

named :
    workload_id digest (codes "team-a") (codes "Web_1") (codes "app")
    ≡ codes "macvz-team-a-web-1-app"
unfolding workload_id sanitize_dns_label sanitize_loop trim_left trim_right
named = refl

workload_id-IsLabel_example :
    IsLabel (workload_id digest (codes "team-a") (codes "Web_1") (codes "app"))
workload_id-IsLabel_example =
    workload_id-IsLabel digest (codes "team-a") (codes "Web_1") (codes "app") digest-IsHexSum

workload_id-is_macvz_vm_example :
    is_macvz_vm (workload_id digest (codes "team-a") (codes "web") (codes "app")) ≡ true
workload_id-is_macvz_vm_example =
    workload_id-is_macvz_vm digest 116 (codes "eam-a") (codes "web") (codes "app") digest-IsHexSum
      refl

short_enough :
    length (sanitize_dns_label (vm_prefix ++ join_by dash (codes "a-b") (codes "c") (codes "app")))
    ≤ 63
unfolding sanitize_dns_label sanitize_loop trim_left trim_right
short_enough = omega arith

workload_id_collides_example :
    workload_id digest (codes "a-b") (codes "c") (codes "app")
    ≡ workload_id digest (codes "a") (codes "b-c") (codes "app")
workload_id_collides_example =
    workload_id_collides digest (codes "a") (codes "b") (codes "c") (codes "app") short_enough
