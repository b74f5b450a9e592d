-- ===== src/Workload.antt =====
-- pkg/provider/translate.go: the name of a Pod's micro-VM on the host. Kubernetes names are ASCII,
-- so a string is the list of its byte codes, and lower-casing is that of ASCII. SHA-256 is a
-- parameter: the function to its hex digits.
pub mod Label
pub mod Prefix
mod Tests
use macvz.Prelude.{
  leb, nat_beq, if◌then◌else◌, length, is_empty, keep, take, Text, codes, codes_key, text_key,
  number_key, ℕ, ◌+◌, ◌-◌, Bool, true, false, ◌&&◌, ◌||◌, [], ◌∷◌, ◌++◌, map,
}

abbrev pub max_workload_id_len : ℕ
max_workload_id_len = 63

abbrev pub dash : ℕ
dash = 45

abbrev pub slash : ℕ
slash = 47

abbrev pub workload_prefix : Text
workload_prefix = codes "macvz"

-- strings.ToLower, on one byte
abbrev pub to_lower : ℕ → ℕ
to_lower c = if leb 65 c && leb c 90 then c + 32 else c

-- `(r >= 'a' && r <= 'z') || (r >= '0' && r <= '9')`
abbrev pub is_label_char : ℕ → Bool
is_label_char c = leb 97 c && leb c 122 || leb 48 c && leb c 57

-- The loop of sanitizeDNSLabel: other characters become a hyphen, and a run of them one.
unfoldable pub sanitize_loop : Bool → Text → Text
sanitize_loop last_dash [] = []
sanitize_loop last_dash (c ∷ s) =
    let plain = sanitize_loop false s in
    let dashed = sanitize_loop true s in
    if is_label_char c then c ∷ plain else if last_dash then dashed else dash ∷ dashed

-- strings.TrimRight(s, "-")
unfoldable pub trim_right : Text → Text
trim_right [] = []
trim_right (c ∷ s) =
    let rest = trim_right s in if nat_beq c dash && is_empty rest then [] else c ∷ rest

-- strings.TrimLeft(s, "-")
unfoldable pub trim_left : Text → Text
trim_left [] = []
trim_left (c ∷ s) = let rest = trim_left s in if nat_beq c dash then rest else c ∷ s

-- sanitizeDNSLabel
unfoldable pub sanitize_dns_label : Text → Text
sanitize_dns_label s =
    let out = trim_right (trim_left (sanitize_loop false (map to_lower s))) in
    if is_empty out then codes "wl" else out

-- `strings.Join(…, sep)` of three texts
abbrev pub join_by : ℕ → Text → Text → Text → Text
join_by sep a b c = a ++ sep ∷ (b ++ sep ∷ c)

-- WorkloadID
unfoldable pub workload_id : (Text → Text) → Text → Text → Text → Text
workload_id sha256_hex namespace pod_name container_name =
    let id =
      sanitize_dns_label
        (workload_prefix ++ dash ∷ join_by dash namespace pod_name container_name) in
    if leb (length id) max_workload_id_len
    then id
    else let suffix = take 8 (sha256_hex (join_by slash namespace pod_name container_name)) in
      let keep = max_workload_id_len - length suffix - 1 in
      trim_right (take keep id) ++ dash ∷ suffix
