-- ===== src/Wireguard/Sent.antt =====
-- pkg/network: Up, Sync, Down and Remove send only commands that the privileged helper permits.
use macvz.Prelude.{
  Bool-cases, Option-cases, All, keep, contains, All-imp, All-append, Text, codes_key, text_ltb,
  text_key, number_key, inl, inr, Bool, Option, List, [], ◌∷◌, ◌++◌, arith,
}
use macvz.Prelude.Sort.{All-sort}
use macvz.Network.Parse.{net_key}
use macvz.Privhelper.Checks.{Policy}
use macvz.Privhelper.Grammar.{MeshInterface}
use macvz.Privhelper.Routes.{RoutedCidr}
use macvz.Wireguard.{
  MeshCommand, route_add, route_delete, RunError, Runner, run_tolerating, err_route_exists,
  err_route_missing, drop_route, delete_stale, add_missing, reconcile_routes, collect,
  collect_peers, route_targets, seed, delete_all,
}
use macvz.Wireguard.Config.{Peer}
use macvz.Wireguard.Interface.{MeshStep, run_steps}
use macvz.Wireguard.Accepted.{RoutedWord}
use macvz.Wireguard.Rendered.{KnownPeer}
use macvz.Wireguard.Permitted.{Sent, route_add-Sent, route_delete-Sent}

All-keep {ℓ κ} :
    {A : Type ℓ} (P : A → Type κ) (q : A → Bool) (xs : List A) → All P xs → All P (keep q xs)
All-keep P q [] h = tt
All-keep P q (x ∷ xs) h = ground (arith, h.0, All-keep P q xs h.1)

module _ (p : Policy) (run : Runner) where
  routed : (peer : Peer) → KnownPeer p peer → All (RoutedCidr p) peer.allowed_ips
  unfolding KnownPeer RoutedWord RoutedCidr
  routed peer k = All-imp peer.allowed_ips (λ w r. r.2) k.5

  collect-routed :
      (out cidrs : List Text)
      → All (RoutedCidr p) out
      → All (RoutedCidr p) cidrs
      → All (RoutedCidr p) (collect out cidrs)
  unfolding collect
  collect-routed out [] o h = o
  collect-routed out (cidr ∷ cidrs) o h = elim (Bool-cases (contains out cidr)) [
    | inl t ↦ rw t (collect-routed out cidrs o h.1)
    | inr f ↦ rw f (
        collect-routed (out ++ cidr ∷ []) cidrs
          (All-append (RoutedCidr p) out (cidr ∷ []) o (h.0, tt)) h.1)
  ]

  collect_peers-routed :
      (out : List Text) (peers : List Peer)
      → All (RoutedCidr p) out
      → All (KnownPeer p) peers
      → All (RoutedCidr p) (collect_peers out peers)
  unfolding collect_peers
  collect_peers-routed out [] o h = o
  collect_peers-routed out (peer ∷ peers) o h =
      collect_peers-routed (collect out peer.allowed_ips) peers
        (collect-routed out peer.allowed_ips o (routed peer h.0)) h.1

  pub route_targets-routed :
      (peers : List Peer) → All (KnownPeer p) peers → All (RoutedCidr p) (route_targets peers)
  unfolding route_targets
  route_targets-routed peers h =
      All-sort text_ltb (RoutedCidr p) (collect_peers [] peers) (collect_peers-routed [] peers tt h)

  module _ (iface : Text) (m : MeshInterface p iface) where
    -- Routed routes, and commands that are permitted.
    Fine : Option RunError × List Text × List MeshCommand → Type 0
    Fine o = All (RoutedCidr p) o.1 × All (Sent p iface) o.2

    delete_stale-Fine :
        (want : Text → Bool) (walk routes : List Text) (done : List MeshCommand)
        → All (RoutedCidr p) walk
        → All (RoutedCidr p) routes
        → All (Sent p iface) done
        → Fine (delete_stale run want walk routes done)
    unfolding delete_stale Fine
    delete_stale-Fine want [] routes done w r d = (r, d)
    delete_stale-Fine want (target ∷ walk) routes done w r d =
        let sent : All (Sent p iface) (route_delete target ∷ done) =
          (route_delete-Sent p iface m target w.0, d) in
        elim (Bool-cases (want target)) [
          | inl t ↦ rw t (delete_stale-Fine want walk routes done w.1 r d)
          | inr f ↦
              rw f
                (elim (Option-cases
                  (run_tolerating run (err_route_missing ∷ []) (route_delete target) done)) [
                    | inr (e, k) ↦ rw k (r, sent)
                    | inl k ↦ rw k (
                        delete_stale-Fine want walk (drop_route target routes)
                          (route_delete target ∷ done) w.1 (All-keep (RoutedCidr p) _ routes r)
                          sent)
                  ])
        ]

    add_missing-Fine :
        (desired routes : List Text) (done : List MeshCommand)
        → All (RoutedCidr p) desired
        → All (RoutedCidr p) routes
        → All (Sent p iface) done
        → Fine (add_missing run desired routes done)
    unfolding add_missing Fine
    add_missing-Fine [] routes done w r d = (r, d)
    add_missing-Fine (target ∷ desired) routes done w r d =
        let sent : All (Sent p iface) (route_add target ∷ done) =
          (route_add-Sent p iface m target w.0, d) in
        elim (Bool-cases (contains routes target)) [
          | inl t ↦ rw t (add_missing-Fine desired routes done w.1 r d)
          | inr f ↦
              rw f
                (elim (Option-cases
                  (run_tolerating run (err_route_exists ∷ []) (route_add target) done)) [
                    | inr (e, k) ↦ rw k (r, sent)
                    | inl k ↦ rw k (
                        add_missing-Fine desired (target ∷ routes) (route_add target ∷ done) w.1
                          (w.0, r) sent)
                  ])
        ]

    pub reconcile_routes-Fine :
        (desired routes : List Text) (done : List MeshCommand)
        → All (RoutedCidr p) desired
        → All (RoutedCidr p) routes
        → All (Sent p iface) done
        → All (RoutedCidr p) (reconcile_routes run desired routes done).1
          × All (Sent p iface) (reconcile_routes run desired routes done).2
    unfolding reconcile_routes Fine
    reconcile_routes-Fine desired routes done w r d =
        let stale = delete_stale run (contains desired) routes routes done in
        let (k, s) = delete_stale-Fine (contains desired) routes routes done r r d in
        elim (Option-cases stale.0) [
          | inr (e, f) ↦ rw (f, reconcile_routes) (k, s)
          | inl f ↦ rw (f, reconcile_routes) (add_missing-Fine desired stale.1 stale.2 w k s)
        ]

    pub run_steps-Sent :
        (steps : List MeshStep) (done : List MeshCommand)
        → All (λ s. Sent p iface s.0) steps
        → All (Sent p iface) done
        → All (Sent p iface) (run_steps run steps done).1
    unfolding run_steps
    run_steps-Sent [] done h d = d
    run_steps-Sent ((c, benign) ∷ steps) done h d =
        elim (Option-cases (run_tolerating run benign c done)) [
          | inr (e, k) ↦ rw (k, run_steps) (h.0, d)
          | inl k ↦ rw (k, run_steps) (run_steps-Sent steps (c ∷ done) h.1 (h.0, d))
        ]

    pub delete_all-Sent :
        (walk : List Text) (done : List MeshCommand)
        → All (RoutedCidr p) walk
        → All (Sent p iface) done
        → All (Sent p iface) (delete_all walk done)
    unfolding delete_all
    delete_all-Sent [] done w d = d
    delete_all-Sent (target ∷ walk) done w d =
        delete_all-Sent walk (route_delete target ∷ done) w.1
          (route_delete-Sent p iface m target w.0, d)

  pub seed-routed :
      (targets routes : List Text)
      → All (RoutedCidr p) targets
      → All (RoutedCidr p) routes
      → All (RoutedCidr p) (seed targets routes)
  unfolding seed
  seed-routed [] routes t r = r
  seed-routed (target ∷ targets) routes t r = elim (Bool-cases (contains routes target)) [
    | inl e ↦ rw e (seed-routed targets routes t.1 r)
    | inr e ↦ rw e (seed-routed targets (target ∷ routes) t.1 (t.0, r))
  ]
