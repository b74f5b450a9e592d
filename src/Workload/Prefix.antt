-- ===== src/Workload/Prefix.antt =====
-- Workload names carry the prefix that drain and the orphan reaper look for, and are not unique.
use macvz.Prelude.{
  leb, nat_beq, Bool-cases, length, take, Text, codes_key, has_prefix-append, text_key, number_key,
  ℕ, ◌≤◌, ◌≡◌, ap, inl, inr, true, false, ◌∷◌, ◌++◌, map, arith,
}
use macvz.Workload.{
  max_workload_id_len, dash, slash, to_lower, is_label_char, sanitize_loop, trim_right, trim_left,
  sanitize_dns_label, join_by, workload_id,
}
use macvz.Drain.{vm_prefix, is_macvz_vm}
use macvz.Workload.Label.{IsHexSum, take-exact}
use mathlib.Core.List.{append_assoc}

-- A name that starts with the prefix and a letter or digit.
abbrev Marked : Text → Type 0
Marked s = (c : ℕ) × (r : Text) × (is_label_char c ≡ true) × (s ≡ vm_prefix ++ c ∷ r)

trim_right-kept :
    (c : ℕ) (s : Text) → nat_beq c dash ≡ false → trim_right (c ∷ s) ≡ c ∷ trim_right s
unfolding trim_right
trim_right-kept c s h = ground (arith, h)

trim_right-before : (d c : ℕ) (s r : Text) → trim_right s ≡ c ∷ r → trim_right (d ∷ s) ≡ d ∷ c ∷ r
unfolding trim_right
trim_right-before d c s r h = ground (arith, h)

trim_right-Marked :
    (c : ℕ) (r : Text) → is_label_char c ≡ true → Marked (trim_right (vm_prefix ++ c ∷ r))
trim_right-Marked c r h =
    let e0 : trim_right (c ∷ r) ≡ c ∷ trim_right r = trim_right-kept c r (ground (arith, h)) in
    let e1 : trim_right (dash ∷ c ∷ r) ≡ dash ∷ c ∷ trim_right r =
      trim_right-before dash c _ _ e0 in
    let e2 : trim_right (122 ∷ dash ∷ c ∷ r) ≡ 122 ∷ dash ∷ c ∷ trim_right r =
      trim_right-before 122 dash _ _ e1 in
    let e3 : trim_right (118 ∷ 122 ∷ dash ∷ c ∷ r) ≡ 118 ∷ 122 ∷ dash ∷ c ∷ trim_right r =
      trim_right-before 118 122 _ _ e2 in
    let e4 : trim_right (99 ∷ 118 ∷ 122 ∷ dash ∷ c ∷ r) ≡ 99 ∷ 118 ∷ 122 ∷ dash ∷ c ∷ trim_right r =
      trim_right-before 99 118 _ _ e3 in
    let e5 : trim_right (97 ∷ 99 ∷ 118 ∷ 122 ∷ dash ∷ c ∷ r)
        ≡ 97 ∷ 99 ∷ 118 ∷ 122 ∷ dash ∷ c ∷ trim_right r =
      trim_right-before 97 99 _ _ e4 in
    (c, trim_right r, h, trim_right-before 109 97 _ _ e5)

looped :
    (c : ℕ) (s : Text)
    → is_label_char (to_lower c) ≡ true
    → trim_left (sanitize_loop false (map to_lower (vm_prefix ++ c ∷ s)))
      ≡ vm_prefix ++ to_lower c ∷ sanitize_loop false (map to_lower s)
unfolding trim_left sanitize_loop
looped c s h = ground (arith, h)

sanitize_dns_label-Marked :
    (c : ℕ) (s : Text)
    → is_label_char (to_lower c) ≡ true
    → Marked (sanitize_dns_label (vm_prefix ++ c ∷ s))
unfolding sanitize_dns_label
sanitize_dns_label-Marked c s h =
    let tail = sanitize_loop false (map to_lower s) in
    let (k, r, lab, e) = trim_right-Marked (to_lower c) tail h in
    (k, r, lab, ground (arith, e, looped c s h))

Marked-has : (s : Text) → Marked s → is_macvz_vm s ≡ true
unfolding is_macvz_vm
Marked-has s (c, r, h, e) = rw e (has_prefix-append vm_prefix (c ∷ r))

append-Marked : (s t : Text) → Marked s → Marked (s ++ t)
append-Marked s t (c, r, h, e) = (c, r ++ t, h, ap (λ x. x ++ t) e)

cut-Marked : (s : Text) → Marked s → Marked (trim_right (take 54 s))
cut-Marked s (c, r, h, e) = rw e (trim_right-Marked c (take 47 r) h)

-- Drain and the orphan reaper recognise every workload of a Pod whose namespace starts, as
-- Kubernetes demands, with a letter or digit, given that SHA-256 answers 64 hexadecimal digits.
pub workload_id-is_macvz_vm :
    (sha256_hex : Text → Text) (c : ℕ) (namespace pod_name container_name : Text)
    → IsHexSum sha256_hex
    → is_label_char (to_lower c) ≡ true
    → is_macvz_vm (workload_id sha256_hex (c ∷ namespace) pod_name container_name) ≡ true
unfolding workload_id
workload_id-is_macvz_vm sha256_hex c namespace pod_name container_name hex h =
    let rest = join_by dash namespace pod_name container_name in
    let id = sanitize_dns_label (vm_prefix ++ c ∷ rest) in
    let sum = sha256_hex (join_by slash (c ∷ namespace) pod_name container_name) in
    let suffix = take 8 sum in
    let marked : Marked id = sanitize_dns_label-Marked c rest h in
    let eight : length suffix ≡ 8 =
      take-exact 8 sum
        (omega (arith, (hex (join_by slash (c ∷ namespace) pod_name container_name)).1)) in
    elim (Bool-cases (leb (length id) max_workload_id_len)) [
      | inl short ↦ rw (short, workload_id) (Marked-has id marked)
      | inr long ↦
          rw (long, workload_id)
            (rw eight (Marked-has _ (append-Marked _ (dash ∷ suffix) (cut-Marked id marked))))
    ]

-- A hyphen in a Pod's name can be moved into its namespace: if the joined name needs no cut, the
-- Pods `b-c` of namespace `a` and `c` of namespace `a-b` have the same workload.
pub workload_id_collides :
    (sha256_hex : Text → Text) (a b c d : Text)
    → length (sanitize_dns_label (vm_prefix ++ join_by dash (a ++ dash ∷ b) c d)) ≤ 63
    → workload_id sha256_hex (a ++ dash ∷ b) c d ≡ workload_id sha256_hex a (b ++ dash ∷ c) d
unfolding workload_id
workload_id_collides sha256_hex a b c d h =
    let same : join_by dash (a ++ dash ∷ b) c d ≡ join_by dash a (b ++ dash ∷ c) d =
      simp append_assoc in
    ground (arith, h, same)
