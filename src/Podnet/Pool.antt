-- ===== src/Podnet/Pool.antt =====
-- pkg/network: the targets of a redirect as words, accepted by the lint.
use macvz.Prelude.{
  All, length, length-append, All-append, Text, codes, same_text, same_text_refl, codes_key,
  text_key, number_key, ◌==◌, ℕ, ◌^◌, ◌<◌, ◌≡◌, refl, ◌≢◌, true, false, none, some, List, [], ◌∷◌,
  ◌++◌, arith,
}
use macvz.Prelude.Strings.{itoa}
use macvz.Prelude.Lines.{pool_words}
use macvz.Prelude.Digits.{atoi-itoa}
use macvz.Network.Parse.{parse_ip_text, net_key}
use macvz.Privhelper.Checks.{Policy}
use macvz.Privhelper.Anchor.{parse_rdr_targets, is_rdr_end, lint_rdr_targets}
use macvz.Podnet.Accepted.{Plain}
use macvz.Podnet.Redirected.{
  Target, not_token, pool_not_port, cut_port_first, parse_pool_words, check_targets_reachable,
}

-- The tokens between the arrow and the target port.
abbrev pub tokens_of : List Text → List Text
tokens_of (t ∷ []) = t ∷ []
tokens_of ts = codes "{" ∷ (pool_words ts ++ codes "}" ∷ [])

-- What stands after the target port.
abbrev pub end_of : List Text → List Text
end_of (t ∷ []) = []
end_of ts = codes "round-robin" ∷ []

pub pool_length : (ts : List Text) → length (pool_words ts) ≡ length ts
pool_length [] = refl
pool_length (t ∷ []) = refl
pool_length (t ∷ u ∷ ts) = ground (arith, pool_length (u ∷ ts))

pub tokens_not_port :
    (p : Policy) (ts : List Text)
    → All (Target p) ts
    → All (λ w. (w == codes "port") ≡ false) (tokens_of ts)
unfolding same_text
tokens_not_port p [] h = (refl, (refl, tt))
tokens_not_port p (t ∷ []) h = pool_not_port p (t ∷ []) h
tokens_not_port p (t ∷ u ∷ ts) h = (
  refl,
  All-append (λ w. (w == codes "port") ≡ false) (pool_words (t ∷ u ∷ ts)) (codes "}" ∷ [])
      (pool_not_port p (t ∷ u ∷ ts) h) (refl, tt),
)

pub brace_not_an_ip : parse_ip_text (codes "{") ≡ none
unfolding parse_ip_text
brace_not_an_ip = refl

pub tokens_parse :
    (p : Policy) (ts : List Text)
    → ts ≢ []
    → All (Target p) ts
    → parse_rdr_targets (tokens_of ts) ≡ some ts
unfolding parse_rdr_targets Target Plain
tokens_parse p [] n h = absurd (n refl)
tokens_parse p (t ∷ []) n h = ground (arith, not_token t (codes "{") brace_not_an_ip h.0.0, h)
tokens_parse p (t ∷ u ∷ ts) n h = ground (
  arith,
  same_text_refl (codes "{"),
  parse_pool_words p (t ∷ u ∷ ts) h,
  length-append (pool_words (t ∷ u ∷ ts)) (codes "}" ∷ []),
  pool_length (t ∷ u ∷ ts),
)

pub end_ok : (ts : List Text) → is_rdr_end (end_of ts) ≡ true
unfolding same_text
end_ok [] = refl
end_ok (t ∷ []) = refl
end_ok (t ∷ u ∷ ts) = refl

pub rdr_targets-accepted :
    (p : Policy) (ts : List Text) (port : ℕ)
    → ts ≢ []
    → port < 2 ^ 63
    → All (Target p) ts
    → lint_rdr_targets p (tokens_of ts ++ codes "port" ∷ itoa port ∷ end_of ts) ≡ none
unfolding lint_rdr_targets
rdr_targets-accepted p ts port n l h = ground (
  arith,
  cut_port_first (tokens_of ts) (itoa port ∷ end_of ts) (tokens_not_port p ts h),
  atoi-itoa port l,
  tokens_parse p ts n h,
  check_targets_reachable p ts h,
  end_ok ts,
)
