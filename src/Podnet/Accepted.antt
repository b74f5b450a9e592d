-- ===== src/Podnet/Accepted.antt =====
-- pkg/network: the lines that the router renders, as the privileged helper's lint reads them.
use macvz.Prelude.{
  is_some, contains, contains-cons, Text, codes, same_text, codes_key, text_key, number_key, ℕ, ◌≡◌,
  refl, sym, ap, ◌∙◌, ◌≢◌, ◌⊎◌, inl, inr, true, false, none, List, [], ◌∷◌, ◌++◌, arith,
}
use macvz.Prelude.Strings.{
  is_space, split, trim_left, trim_right, trim_space, starts_word, fields, join,
}
use macvz.Prelude.Words.{is_word, fields_word, fields-trim_space, comment-trim_space, split_line}
use macvz.Prelude.Lines.{
  append_assoc, append_nil, words_of, fields-join_words, no_break-is_word, no_breaks, no_break-join,
}
use macvz.Network.Parse.{parse_ip_text, net_key}
use macvz.Privhelper.Checks.{Policy, ip_in_set}
use macvz.Privhelper.Anchor.{
  lint_binat_tail, lint_rule, is_skipped, lint_lines, lint_anchor_ruleset,
}
use macvz.Privhelper.Grammar.{empty_iff}
use macvz.Privhelper.Rules.{NatInterface, NatInterface-iff, binat_words}
use macvz.Podnet.Render.{Endpoint, words_line, binat_line}

-- A text of whole lines that the lint reads past.
unfoldable pub Passed : Policy → Text → Type 0
Passed p t = (rest : Text) → lint_lines p (split 10 (t ++ rest)) ≡ lint_lines p (split 10 rest)

blank_no_break : contains {A = ℕ} (32 ∷ []) 10 ≡ false
unfolding contains
blank_no_break = refl

module _ (p : Policy) where
  pub nil-Passed : Passed p []
  unfolding Passed
  nil-Passed rest = refl

  pub append-Passed : (a b : Text) → Passed p a → Passed p b → Passed p (a ++ b)
  unfolding Passed
  append-Passed a b ha hb rest =
      ap (λ t. lint_lines p (split 10 t)) (append_assoc a b rest) ∙ ha (b ++ rest) ∙ hb rest

  lines-cons :
      (raw : Text) (lines : List Text)
      → ((is_skipped (trim_space raw) ≡ true) ⊎ (lint_rule p (fields (trim_space raw)) ≡ none))
      → lint_lines p (raw ∷ lines) ≡ lint_lines p lines
  unfolding lint_lines
  lines-cons raw lines h = ground (arith, h)

  -- A line without a break, which the lint skips or accepts.
  line-Passed :
      (s : Text)
      → contains s 10 ≡ false
      → ((is_skipped (trim_space s) ≡ true) ⊎ (lint_rule p (fields (trim_space s)) ≡ none))
      → Passed p (s ++ 10 ∷ [])
  unfolding Passed
  line-Passed s n h rest =
      ap (λ t. lint_lines p (split 10 t)) (append_assoc s (10 ∷ []) rest)
      ∙ ap (lint_lines p) (split_line 10 s rest n)
      ∙ lines-cons s (split 10 rest) h

  pub comment-Passed : (s : Text) → contains s 10 ≡ false → Passed p (b'#' ∷ s ++ 10 ∷ [])
  comment-Passed s n =
      line-Passed (b'#' ∷ s) (ground (arith, contains-cons b'#' s 10, n))
        (inl (ground (arith, comment-trim_space s)))

  pub words-Passed :
      (ws : List Text)
      → no_breaks ws ≡ true
      → lint_rule p (words_of ws) ≡ none
      → Passed p (words_line ws)
  words-Passed ws n h =
      line-Passed (join (32 ∷ []) ws) (no_break-join (32 ∷ []) ws blank_no_break n)
        (inr (ap (lint_rule p) (fields-trim_space (join (32 ∷ []) ws) ∙ fields-join_words ws) ∙ h))

  no_lines : lint_lines p (split 10 []) ≡ none
  unfolding lint_lines split trim_left trim_right
  no_lines = refl

  -- A text of whole lines that are passed one after another is accepted.
  pub accepted-Passed :
      (t : Text) → p.vmnet_interface ≢ [] → Passed p t → lint_anchor_ruleset p t ≡ none
  unfolding lint_anchor_ruleset Passed
  accepted-Passed t i h =
      let e = ap (λ u. lint_lines p (split 10 u)) (sym (append_nil t)) ∙ h [] ∙ no_lines in
      ground (arith, empty_iff p.vmnet_interface, i, e)

-- An address as a text that stands in a rule: one word, without a comma.
unfoldable pub Plain : Text → Type 0
Plain s = (is_word s ≡ true) × (contains s b',' ≡ false) × (is_some (parse_ip_text s) ≡ true)

-- The words of the address of one rule.
pub Plain-fields : (s : Text) → Plain s → fields s ≡ s ∷ []
unfolding Plain
Plain-fields s h = fields_word s h.0

pub Plain-break : (s : Text) → Plain s → contains s 10 ≡ false
unfolding Plain
Plain-break s h = no_break-is_word s h.0

binat_words_of :
    (iface vm_ip pod_ip : Text)
    → is_word iface ≡ true
    → Plain vm_ip
    → Plain pod_ip
    → words_of (codes "binat" ∷ codes "on" ∷ iface ∷ binat_words vm_ip pod_ip)
      ≡ codes "binat" ∷ codes "on" ∷ iface ∷ binat_words vm_ip pod_ip
unfolding fields is_space starts_word binat_words
binat_words_of iface vm_ip pod_ip w v q =
    rw (fields_word iface w, Plain-fields vm_ip v, Plain-fields pod_ip q) refl

module _ (p : Policy) where
  binat_rule-accepted :
      (iface vm_ip pod_ip : Text)
      → NatInterface p iface
      → ip_in_set vm_ip p.vmnet_cidrs ≡ true
      → ip_in_set pod_ip p.pod_cidrs ≡ true
      → lint_rule p (codes "binat" ∷ codes "on" ∷ iface ∷ binat_words vm_ip pod_ip) ≡ none
  unfolding lint_rule lint_binat_tail binat_words same_text
  binat_rule-accepted iface vm_ip pod_ip n v q = ground (arith, NatInterface-iff p iface, n, v, q)

  pub binat_line-Passed :
      (ep : Endpoint) (iface : Text)
      → is_word iface ≡ true
      → NatInterface p iface
      → Plain ep.vm_ip
      → Plain ep.pod_ip
      → ip_in_set ep.vm_ip p.vmnet_cidrs ≡ true
      → ip_in_set ep.pod_ip p.pod_cidrs ≡ true
      → Passed p (binat_line ep iface)
  unfolding contains binat_words
  binat_line-Passed ep iface w n v q i j =
      words-Passed p (codes "binat" ∷ codes "on" ∷ iface ∷ binat_words ep.vm_ip ep.pod_ip)
        (ground (arith, no_break-is_word iface w, Plain-break ep.vm_ip v, Plain-break ep.pod_ip q))
        (ap (lint_rule p) (binat_words_of iface ep.vm_ip ep.pod_ip w v q)
          ∙ binat_rule-accepted iface ep.vm_ip ep.pod_ip n i j)
