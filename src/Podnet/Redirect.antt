-- ===== src/Podnet/Redirect.antt =====
-- pkg/network: one redirect line of the router, accepted by the privileged helper's lint.
use macvz.Prelude.{
  ltb, All, length, length-append, contains, Text, codes, same_text, same_text_iff, codes_key,
  text_key, number_key, ℕ, ◌^◌, ◌<◌, ◌≡◌, refl, sym, ap, ◌∙◌, ◌≢◌, ◌⊎◌, inl, inr, true, false, none,
  List, [], ◌∷◌, ◌++◌, arith,
}
use macvz.Prelude.Strings.{is_space, starts_word, fields, join, itoa}
use macvz.Prelude.Words.{is_word, fields_word, all_words}
use macvz.Prelude.Lines.{
  append_assoc, words_of, pool_words, fields-join_pool, no_break-is_word, no_breaks, no_break-join,
  no_breaks-all_words,
}
use macvz.Prelude.Digits.{is_word-itoa, atoi-itoa}
use macvz.Network.Parse.{net_key}
use macvz.Privhelper.Checks.{Policy}
use macvz.Privhelper.Anchor.{lint_rdr_rule, lint_rule}
use macvz.Privhelper.Grammar.{VmnetInterface, check_vmnet_interface_iff}
use macvz.Privhelper.Redirects.{rdr_words}
use macvz.Podnet.Rule.{ServiceRule}
use macvz.Podnet.Render.{destination, rdr_line}
use macvz.Podnet.Accepted.{Passed, words-Passed, Plain, Plain-fields, Plain-break}
use macvz.Podnet.Redirected.{Target}
use macvz.Podnet.Pool.{tokens_of, end_of, rdr_targets-accepted}

-- What a rule needs so that its redirects are accepted, besides its targets.
unfoldable pub Redirectable : ServiceRule → Type 0
Redirectable r =
    (contains r.service_key 10 ≡ false)
    × Plain r.cluster_ip
    × ((r.protocol ≡ codes "tcp") ⊎ (r.protocol ≡ codes "udp"))
    × (r.port < 2 ^ 63)
    × (r.target_port < 2 ^ 63)

-- The words of a redirect line after its interface.
abbrev rdr_tail : ServiceRule → List Text → List Text
rdr_tail r ts =
    rdr_words r.protocol r.cluster_ip (itoa r.port)
      (tokens_of ts ++ codes "port" ∷ itoa r.target_port ∷ end_of ts)

tail_length :
    (ts : List Text) (port : Text)
    → ltb (length (tokens_of ts ++ codes "port" ∷ port ∷ end_of ts)) 3 ≡ false
tail_length [] port = refl
tail_length (t ∷ []) port = refl
tail_length (t ∷ u ∷ ts) port = ground (
  arith,
  length-append (pool_words (u ∷ ts) ++ codes "}" ∷ [])
      (codes "port" ∷ port ∷ codes "round-robin" ∷ []),
)

rdr_rule-accepted :
    (p : Policy) (r : ServiceRule) (ts : List Text) (iface : Text)
    → VmnetInterface p iface
    → Redirectable r
    → ts ≢ []
    → All (Target p) ts
    → lint_rule p (codes "rdr" ∷ codes "on" ∷ iface ∷ rdr_tail r ts) ≡ none
unfolding lint_rule lint_rdr_rule rdr_words same_text Redirectable Plain
rdr_rule-accepted p r ts iface v g n h = ground (
  arith,
  same_text_iff r.protocol (codes "tcp"),
  same_text_iff r.protocol (codes "udp"),
  check_vmnet_interface_iff p iface,
  tail_length ts (itoa r.target_port),
  atoi-itoa r.port g.3,
  rdr_targets-accepted p ts r.target_port n g.4 h,
  g,
  v,
)

all_words-Target : (p : Policy) (ts : List Text) → All (Target p) ts → all_words ts ≡ true
unfolding Target Plain
all_words-Target p [] h = refl
all_words-Target p (t ∷ ts) h = ground (arith, h.0.0.0, all_words-Target p ts h.1)

destination_words :
    (p : Policy) (ts : List Text) (port : ℕ)
    → ts ≢ []
    → All (Target p) ts
    → words_of (destination ts port) ≡ tokens_of ts ++ codes "port" ∷ itoa port ∷ end_of ts
unfolding fields is_space starts_word Target
destination_words p [] port n h = absurd (n refl)
destination_words p (t ∷ []) port n h =
    rw (Plain-fields t h.0.0, fields_word (itoa port) (is_word-itoa port)) refl
destination_words p (t ∷ u ∷ ts) port n h =
    let w = all_words-Target p (t ∷ u ∷ ts) h in
    rw (fields-join_pool (t ∷ u ∷ ts) w, fields_word (itoa port) (is_word-itoa port))
      (ap (λ l. codes "{" ∷ l)
        (sym (
          append_assoc (pool_words (t ∷ u ∷ ts)) (codes "}" ∷ [])
            (codes "port" ∷ itoa port ∷ codes "round-robin" ∷ []))))

protocol_word : (s : Text) → (s ≡ codes "tcp") ⊎ (s ≡ codes "udp") → is_word s ≡ true
unfolding is_word is_space
protocol_word s (inl e) = rw e refl
protocol_word s (inr e) = rw e refl

rdr_words_of :
    (p : Policy) (r : ServiceRule) (ts : List Text) (iface : Text)
    → is_word iface ≡ true
    → Redirectable r
    → ts ≢ []
    → All (Target p) ts
    → words_of (
        codes "rdr"
        ∷ codes "on"
        ∷ iface
        ∷ rdr_words r.protocol r.cluster_ip (itoa r.port) (destination ts r.target_port))
      ≡ codes "rdr" ∷ codes "on" ∷ iface ∷ rdr_tail r ts
unfolding fields is_space starts_word rdr_words Redirectable
rdr_words_of p r ts iface w (k, c, proto, a, b) n h =
    rw
      (
        fields_word iface w,
        fields_word r.protocol (protocol_word r.protocol proto),
        Plain-fields r.cluster_ip c,
        fields_word (itoa r.port) (is_word-itoa r.port),
        destination_words p ts r.target_port n h,
      )
      refl

comma_no_break : contains {A = ℕ} (codes ", ") 10 ≡ false
unfolding contains
comma_no_break = refl

destination_breaks :
    (p : Policy) (ts : List Text) (port : ℕ)
    → All (Target p) ts
    → no_breaks (destination ts port) ≡ true
unfolding contains Target join
destination_breaks p [] port h = ground (arith, no_break-is_word (itoa port) (is_word-itoa port))
destination_breaks p (t ∷ []) port h =
    ground (arith, Plain-break t h.0.0, no_break-is_word (itoa port) (is_word-itoa port))
destination_breaks p (t ∷ u ∷ ts) port h = ground (
  arith,
  no_break-join (codes ", ") (t ∷ u ∷ ts) comma_no_break
      (no_breaks-all_words (t ∷ u ∷ ts) (all_words-Target p (t ∷ u ∷ ts) h)),
  no_break-is_word (itoa port) (is_word-itoa port),
)

rdr_breaks :
    (p : Policy) (r : ServiceRule) (ts : List Text) (iface : Text)
    → is_word iface ≡ true
    → Redirectable r
    → All (Target p) ts
    → no_breaks (
        codes "rdr"
        ∷ codes "on"
        ∷ iface
        ∷ rdr_words r.protocol r.cluster_ip (itoa r.port) (destination ts r.target_port))
      ≡ true
unfolding contains rdr_words Redirectable
rdr_breaks p r ts iface w (k, c, proto, a, b) h = ground (
  arith,
  no_break-is_word iface w,
  no_break-is_word r.protocol (protocol_word r.protocol proto),
  Plain-break r.cluster_ip c,
  no_break-is_word (itoa r.port) (is_word-itoa r.port),
  destination_breaks p ts r.target_port h,
)

pub rdr_line-Passed :
    (p : Policy) (r : ServiceRule) (ts : List Text) (iface : Text)
    → is_word iface ≡ true
    → VmnetInterface p iface
    → Redirectable r
    → ts ≢ []
    → All (Target p) ts
    → Passed p (rdr_line r ts iface)
unfolding rdr_words
rdr_line-Passed p r ts iface w v g n h =
    words-Passed p
      (codes "rdr"
        ∷ codes "on"
        ∷ iface
        ∷ rdr_words r.protocol r.cluster_ip (itoa r.port) (destination ts r.target_port))
      (rdr_breaks p r ts iface w g h)
      (ap (lint_rule p) (rdr_words_of p r ts iface w g n h)
        ∙ rdr_rule-accepted p r ts iface v g n h)
