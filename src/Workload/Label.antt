-- ===== src/Workload/Label.antt =====
-- Workload names are DNS labels (RFC 1123).
use macvz.Prelude.{
  leb, nat_beq, if◌then◌else◌, leb→le, Bool-cases, All, length, is_empty, length-append, All-imp,
  take, length-take, All-take, All-append, Text, codes_key, text_key, number_key, ℕ, zero, suc, ◌≤◌,
  ◌≡◌, refl, inl, inr, Bool, true, false, ◌&&◌, ◌||◌, [], ◌∷◌, ◌++◌, map, arith,
}
use macvz.Workload.{
  max_workload_id_len, dash, slash, workload_prefix, to_lower, is_label_char, sanitize_loop,
  trim_right, trim_left, sanitize_dns_label, join_by, workload_id,
}

abbrev pub starts_dashed : Text → Bool
starts_dashed [] = false
starts_dashed (c ∷ s) = nat_beq c dash

abbrev pub ends_dashed : Text → Bool
ends_dashed [] = false
ends_dashed (c ∷ []) = nat_beq c dash
ends_dashed (c ∷ d ∷ s) = ends_dashed (d ∷ s)

-- A character of a label.
abbrev pub IsLabelChar : ℕ → Type 0
IsLabelChar c = (is_label_char c || nat_beq c dash) ≡ true

-- A DNS label: one to 63 letters, digits and hyphens, with no hyphen at either end.
abbrev pub IsLabel : Text → Type 0
IsLabel s =
    All IsLabelChar s
    × (1 ≤ length s)
    × (length s ≤ 63)
    × (starts_dashed s ≡ false)
    × (ends_dashed s ≡ false)

sanitize_loop-All : (b : Bool) (s : Text) → All IsLabelChar (sanitize_loop b s)
unfolding sanitize_loop
sanitize_loop-All b [] = tt
sanitize_loop-All b (c ∷ s) = ground (arith, sanitize_loop-All true s, sanitize_loop-All false s)

trim_right-All : (P : ℕ → Type 0) (s : Text) → All P s → All P (trim_right s)
unfolding trim_right
trim_right-All P [] h = tt
trim_right-All P (c ∷ s) h = ground (arith, trim_right-All P s h.1)

trim_left-All : (P : ℕ → Type 0) (s : Text) → All P s → All P (trim_left s)
unfolding trim_left
trim_left-All P [] h = tt
trim_left-All P (c ∷ s) h = ground (arith, trim_left-All P s h.1)

trim_left-starts : (s : Text) → starts_dashed (trim_left s) ≡ false
unfolding trim_left
trim_left-starts [] = refl
trim_left-starts (c ∷ s) = ground (arith, trim_left-starts s)

trim_right-starts : (s : Text) → starts_dashed s ≡ false → starts_dashed (trim_right s) ≡ false
unfolding trim_right
trim_right-starts [] h = refl
trim_right-starts (c ∷ s) h = ground arith

trim_right-full : (s : Text) → starts_dashed s ≡ false → 1 ≤ length s → 1 ≤ length (trim_right s)
unfolding trim_right
trim_right-full [] h k = k
trim_right-full (c ∷ s) h k = ground arith

ends_dashed-cons :
    (c : ℕ) (s : Text)
    → ends_dashed (c ∷ s) ≡ (if is_empty s then nat_beq c dash else ends_dashed s)
ends_dashed-cons c [] = refl
ends_dashed-cons c (d ∷ s) = refl

ends_dashed-append : (s : Text) (c : ℕ) (t : Text) → ends_dashed (s ++ c ∷ t) ≡ ends_dashed (c ∷ t)
ends_dashed-append [] c t = refl
ends_dashed-append (d ∷ []) c t = refl
ends_dashed-append (d ∷ e ∷ s) c t = ends_dashed-append (e ∷ s) c t

trim_right-ends : (s : Text) → ends_dashed (trim_right s) ≡ false
unfolding trim_right
trim_right-ends [] = refl
trim_right-ends (c ∷ s) = ground (arith, trim_right-ends s, ends_dashed-cons c (trim_right s))

sanitize-All : (s : Text) → All IsLabelChar (sanitize_dns_label s)
unfolding sanitize_dns_label
sanitize-All s =
    let out-All : All IsLabelChar (trim_right (trim_left (sanitize_loop false (map to_lower s)))) =
      trim_right-All IsLabelChar _
        (trim_left-All IsLabelChar _ (sanitize_loop-All false (map to_lower s))) in
    ground (arith, out-All)

-- A name that needs no cut: nonempty, with no hyphen at either end.
sanitize-edges :
    (s : Text)
    → (1 ≤ length (sanitize_dns_label s))
      × (starts_dashed (sanitize_dns_label s) ≡ false)
      × (ends_dashed (sanitize_dns_label s) ≡ false)
unfolding sanitize_dns_label
sanitize-edges s =
    let left = trim_left (sanitize_loop false (map to_lower s)) in
    elim (Bool-cases (is_empty (trim_right left))) [
      | inl e ↦ rw (e, sanitize_dns_label) (omega arith, refl, refl)
      | inr e ↦
          rw (e, sanitize_dns_label)
            (
              is_empty-length (trim_right left) e,
              trim_right-starts left (trim_left-starts _),
              trim_right-ends left,
            )
    ]
  where
    is_empty-length : (xs : Text) → is_empty xs ≡ false → 1 ≤ length xs
    is_empty-length [] h = absurd (ground (arith, h))
    is_empty-length (x ∷ xs) h = omega arith

take-starts : (n : ℕ) (s : Text) → 1 ≤ n → starts_dashed (take n s) ≡ starts_dashed s
take-starts zero s h = absurd (omega (arith, h))
take-starts (suc n) [] h = refl
take-starts (suc n) (c ∷ s) h = refl

take-full : (n : ℕ) (s : Text) → 1 ≤ n → 1 ≤ length s → 1 ≤ length (take n s)
take-full zero s h k = absurd (omega (arith, h))
take-full (suc n) [] h k = k
take-full (suc n) (c ∷ s) h k = omega arith

trim_right-length : (s : Text) → length (trim_right s) ≤ length s
unfolding trim_right
trim_right-length [] = omega arith
trim_right-length (c ∷ s) = ground (arith, trim_right-length s)

-- A lower-case hexadecimal digit.
abbrev pub IsHexDigit : ℕ → Type 0
IsHexDigit c = (leb 97 c && leb c 102 || leb 48 c && leb c 57) ≡ true

-- What hex.EncodeToString answers of a SHA-256 sum: 64 hexadecimal digits.
abbrev pub IsHexSum : (Text → Text) → Type 0
IsHexSum sha256_hex = (s : Text) → All IsHexDigit (sha256_hex s) × (length (sha256_hex s) ≡ 64)

pub take-exact : (n : ℕ) (s : Text) → n ≤ length s → length (take n s) ≡ n
take-exact zero s h = refl
take-exact (suc n) [] h = absurd (omega (arith, h))
take-exact (suc n) (c ∷ s) h = omega (arith, take-exact n s (omega (arith, h)))

hex-ends : (s : Text) → All IsHexDigit s → ends_dashed s ≡ false
hex-ends [] h = refl
hex-ends (c ∷ []) h = ground (arith, h.0)
hex-ends (c ∷ d ∷ s) h = hex-ends (d ∷ s) h.1

append-starts : (s t : Text) → 1 ≤ length s → starts_dashed (s ++ t) ≡ starts_dashed s
append-starts [] t h = absurd (omega (arith, h))
append-starts (c ∷ s) t h = refl

-- A cut name with its hash is a label.
cut-IsLabel :
    (id suffix : Text)
    → All IsLabelChar id
    → 1 ≤ length id
    → starts_dashed id ≡ false
    → All IsHexDigit suffix
    → length suffix ≡ 8
    → IsLabel (trim_right (take 54 id) ++ dash ∷ suffix)
cut-IsLabel id suffix a f st hex len =
    let kept = trim_right (take 54 id) in
    let head-free : starts_dashed (take 54 id) ≡ false = rw (take-starts 54 id (omega arith)) st in
    let kept-full : 1 ≤ length kept =
      trim_right-full (take 54 id) head-free (take-full 54 id (omega arith) f) in
    (
      All-append IsLabelChar kept (dash ∷ suffix)
          (trim_right-All IsLabelChar _ (All-take IsLabelChar 54 id a))
          (refl, All-imp suffix (λ c h. ground (arith, h)) hex),
      omega (arith, length-append kept (dash ∷ suffix), kept-full),
      omega (
        arith,
        length-append kept (dash ∷ suffix),
        trim_right-length (take 54 id),
        length-take 54 id,
        len,
      ),
      rw (append-starts kept (dash ∷ suffix) kept-full) (trim_right-starts (take 54 id) head-free),
      rw (ends_dashed-append kept dash suffix) (suffix-ends suffix hex len),
    )
  where
    suffix-ends : (s : Text) → All IsHexDigit s → length s ≡ 8 → ends_dashed (dash ∷ s) ≡ false
    suffix-ends [] h l = absurd (omega (arith, l))
    suffix-ends (c ∷ s) h l = hex-ends (c ∷ s) h

-- Whatever the Pod is called, its workload's name is a DNS label, given that SHA-256 answers 64
-- hexadecimal digits.
pub workload_id-IsLabel :
    (sha256_hex : Text → Text) (namespace pod_name container_name : Text)
    → IsHexSum sha256_hex
    → IsLabel (workload_id sha256_hex namespace pod_name container_name)
unfolding workload_id
workload_id-IsLabel sha256_hex namespace pod_name container_name hex =
    let joined = workload_prefix ++ dash ∷ join_by dash namespace pod_name container_name in
    let id = sanitize_dns_label joined in
    let sum = sha256_hex (join_by slash namespace pod_name container_name) in
    let (full, st, en) = sanitize-edges joined in
    elim (Bool-cases (leb (length id) max_workload_id_len)) [
      | inl short ↦ rw (short, workload_id) (sanitize-All joined, full, leb→le _ _ short, st, en)
      | inr long ↦
          let eight : length (take 8 sum) ≡ 8 =
            take-exact 8 sum
              (omega (arith, (hex (join_by slash namespace pod_name container_name)).1)) in
          rw (long, workload_id)
            (rw eight (
              cut-IsLabel id (take 8 sum) (sanitize-All joined) full st
                (All-take IsHexDigit 8 sum (hex _).0) eight))
    ]
