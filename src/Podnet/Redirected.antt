-- ===== src/Podnet/Redirected.antt =====
-- pkg/network: the redirects that the router renders, as the privileged helper's lint reads them.
use macvz.Prelude.{
  Bool-cases, All, contains, Text, codes, same_text, same_text_sound, same_text_iff, codes_key,
  text_key, number_key, ◌==◌, ◌≡◌, refl, sym, ap, ◌∙◌, inl, inr, false, none, some, List, [], ◌∷◌,
  ◌++◌, arith,
}
use macvz.Prelude.Strings.{trim_suffix}
use macvz.Prelude.Words.{is_word}
use macvz.Prelude.Lines.{pool_words}
use macvz.Network.Parse.{parse_ip_text, net_key}
use macvz.Privhelper.Checks.{Policy}
use macvz.Privhelper.Anchor.{parse_pool, cut_port, check_targets}
use macvz.Privhelper.Redirects.{Reachable}
use macvz.Podnet.Accepted.{Plain}

-- An address that a redirect may go to.
unfoldable pub Target : Policy → Text → Type 0
Target p t = Plain t × Reachable p t

port_not_an_ip : parse_ip_text (codes "port") ≡ none
unfolding parse_ip_text
port_not_an_ip = refl

-- A text that is no address is none of the addresses.
pub not_token : (t token : Text) → parse_ip_text token ≡ none → Plain t → (t == token) ≡ false
unfolding Plain
not_token t token e h = elim (Bool-cases (t == token)) [
  | inr f ↦ f
  | inl k ↦ absurd (ground (arith, ap parse_ip_text (same_text_sound t token k), e, h.2))
]

not_port : (t : Text) → Plain t → (t == codes "port") ≡ false
not_port t h = not_token t (codes "port") port_not_an_ip h

trim_suffix_comma : (t : Text) → trim_suffix (t ++ b',' ∷ []) b',' ≡ t
unfolding trim_suffix
trim_suffix_comma [] = refl
trim_suffix_comma (c ∷ []) = refl
trim_suffix_comma (c ∷ d ∷ t) = ground (arith, trim_suffix_comma (d ∷ t))

trim_suffix_plain : (t : Text) → contains t b',' ≡ false → trim_suffix t b',' ≡ t
unfolding trim_suffix contains
trim_suffix_plain [] h = refl
trim_suffix_plain (c ∷ t) h = ground (arith, trim_suffix_plain t, h)

port_has_no_comma : trim_suffix (codes "port") b',' ≡ codes "port"
unfolding trim_suffix
port_has_no_comma = refl

comma_not_port : (t : Text) → Plain t → ((t ++ b',' ∷ []) == codes "port") ≡ false
comma_not_port t h = elim (Bool-cases ((t ++ b',' ∷ []) == codes "port")) [
  | inr f ↦ f
  | inl e ↦
      let k = ap (λ s. trim_suffix s b',') (same_text_sound (t ++ b',' ∷ []) (codes "port") e) in
      let same = sym (trim_suffix_comma t) ∙ k ∙ port_has_no_comma in
      absurd (ground (arith, not_port t h, same, same_text_iff t (codes "port")))
]

pub pool_not_port :
    (p : Policy) (ts : List Text)
    → All (Target p) ts
    → All (λ w. (w == codes "port") ≡ false) (pool_words ts)
unfolding Target
pool_not_port p [] h = tt
pool_not_port p (t ∷ []) h = (not_port t h.0.0, tt)
pool_not_port p (t ∷ u ∷ ts) h = (comma_not_port t h.0.0, pool_not_port p (u ∷ ts) h.1)

pub cut_port_first :
    (ws after : List Text)
    → All (λ w. (w == codes "port") ≡ false) ws
    → cut_port (ws ++ codes "port" ∷ after) ≡ some (ws, after)
unfolding cut_port same_text
cut_port_first [] after h = refl
cut_port_first (w ∷ ws) after h = ground (arith, h.0, cut_port_first ws after h.1)

pub parse_pool_words :
    (p : Policy) (ts : List Text)
    → All (Target p) ts
    → parse_pool (pool_words ts ++ codes "}" ∷ []) ≡ some ts
unfolding parse_pool Target Plain same_text is_word
parse_pool_words p [] h = refl
parse_pool_words p (t ∷ []) h = ground (arith, trim_suffix_plain t, h)
parse_pool_words p (t ∷ u ∷ []) h =
    ground (arith, trim_suffix_comma t, parse_pool_words p (u ∷ []) h.1, h)
parse_pool_words p (t ∷ u ∷ v ∷ ts) h =
    ground (arith, trim_suffix_comma t, parse_pool_words p (u ∷ v ∷ ts) h.1, h)

pub check_targets_reachable :
    (p : Policy) (ts : List Text) → All (Target p) ts → check_targets p ts ≡ none
unfolding check_targets Target Reachable
check_targets_reachable p [] h = refl
check_targets_reachable p (t ∷ ts) h = ground (arith, check_targets_reachable p ts h.1, h.0.1)
