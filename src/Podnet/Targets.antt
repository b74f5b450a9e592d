-- ===== src/Podnet/Targets.antt =====
-- pkg/network: where the redirects of a router go, within the policy.
use macvz.Prelude.{
  Bool-cases, Option-cases, All, length, contains, Text, codes_key, text_ltb, text_key, number_key,
  ◌==◌, ℕ, suc, ◌≡◌, refl, sym, ap, ◌∙◌, ◌≢◌, inl, inr, false, some, List, [], ◌∷◌, map, arith,
}
use macvz.Prelude.Sort.{length-sort, All-sort}
use macvz.Prelude.Dict.{Dict, empty, get, put, get-empty, get-put}
use macvz.Network.Parse.{net_key}
use macvz.Privhelper.Checks.{Policy}
use macvz.Privhelper.Redirects.{Reachable}
use macvz.Podnet.{note_vm_ips}
use macvz.Podnet.Rule.{ServiceRule}
use macvz.Podnet.Render.{Endpoint, target_of, targets_of, rdr_line, rdr_lines}
use macvz.Podnet.Accepted.{Passed, nil-Passed, append-Passed}
use macvz.Podnet.Redirected.{Target}
use macvz.Podnet.Redirect.{Redirectable, rdr_line-Passed}
use macvz.Podnet.Ready.{Vmnet, ReadyEndpoint, ReadyRule}
use macvz.Prelude.Dict

pub length-map : (f : Text → Text) (xs : List Text) → length (map f xs) ≡ length xs
length-map f [] = refl
length-map f (x ∷ xs) = ap suc (length-map f xs)

pub nil_no_break : contains {A = ℕ} [] 10 ≡ false
unfolding contains
nil_no_break = refl

pub length_nil : (xs : List Text) → length xs ≡ 0 → xs ≡ []
length_nil [] e = refl
length_nil (x ∷ xs) e = absurd (omega (arith, e))

module _ (p : Policy) where
  -- A map from the addresses of Pods to those of their micro-VMs, which redirects may go to.
  unfoldable pub ReadyMap : Dict Text Text → Type 0
  ReadyMap vmips = (pod_ip vm_ip : Text) → Dict.get vmips pod_ip ≡ some vm_ip → Target p vm_ip

  pub empty-ReadyMap : ReadyMap Dict.empty
  unfolding ReadyMap
  empty-ReadyMap pod_ip vm_ip e = absurd (ground (arith, Dict.get-empty {V = Text} pod_ip, e))

  pub vm-Target : (ep : Endpoint) → ReadyEndpoint p ep → Target p ep.vm_ip
  unfolding ReadyEndpoint Target Reachable
  vm-Target ep e = (e.1, inr e.3)

  pub note_vm_ips-ReadyMap :
      (eps : List (Text × Endpoint)) (vmips : Dict Text Text)
      → All (λ kv. ReadyEndpoint p kv.1) eps
      → ReadyMap vmips
      → ReadyMap (note_vm_ips eps vmips)
  unfolding note_vm_ips ReadyMap
  note_vm_ips-ReadyMap [] vmips h m = m
  note_vm_ips-ReadyMap ((key, ep) ∷ eps) vmips h m =
      note_vm_ips-ReadyMap eps (Dict.put vmips ep.pod_ip ep.vm_ip) h.1 (λ pod_ip vm_ip e.
        elim (Bool-cases (ep.pod_ip == pod_ip)) [
          | inl t ↦
              let same : ep.vm_ip ≡ vm_ip =
                ground (arith, Dict.get-put vmips ep.pod_ip pod_ip ep.vm_ip, t, e) in
              rw (← same) (vm-Target ep h.0)
          | inr f ↦
              m pod_ip vm_ip (ground (arith, Dict.get-put vmips ep.pod_ip pod_ip ep.vm_ip, f, e))
        ])

  pub targets-Target :
      (vmips : Dict Text Text) (r : ServiceRule)
      → ReadyMap vmips
      → ReadyRule p r
      → All (Target p) (targets_of vmips r)
  unfolding ReadyRule ReadyMap
  targets-Target vmips r m g = All-sort text_ltb (Target p) _ (mapped r.backends g.2)
    where
      mapped : (bs : List Text) → All (Target p) bs → All (Target p) (map (target_of vmips) bs)
      mapped [] h = tt
      mapped (b ∷ bs) h = (
        elim (Option-cases (Dict.get vmips b)) [
          | inl e ↦ rw (e, target_of) h.0
          | inr (vm_ip, e) ↦ rw (e, target_of) (m b vm_ip e)
        ],
        mapped bs h.1,
      )

  pub targets_some :
      (vmips : Dict Text Text) (r : ServiceRule) → ReadyRule p r → targets_of vmips r ≢ []
  unfolding ReadyRule
  targets_some vmips r g e = g.1 (
      length_nil r.backends (
        sym (length-map (target_of vmips) r.backends)
        ∙ sym (length-sort text_ltb (map (target_of vmips) r.backends))
        ∙ ap length e))

  pub rdr_lines-Passed :
      (r : ServiceRule) (ts ifaces : List Text)
      → Redirectable r
      → ts ≢ []
      → All (Target p) ts
      → All (Vmnet p) ifaces
      → Passed p (rdr_lines r ts ifaces)
  unfolding rdr_lines Vmnet
  rdr_lines-Passed r ts [] g n t h = nil-Passed p
  rdr_lines-Passed r ts (iface ∷ ifaces) g n t h =
      append-Passed p (rdr_line r ts iface) (rdr_lines r ts ifaces)
        (rdr_line-Passed p r ts iface h.0.0 h.0.1 g n t) (rdr_lines-Passed r ts ifaces g n t h.1)
