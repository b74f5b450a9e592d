-- ===== src/Wireguard/Routes.antt =====
-- What reconciling and removing do to the routes.
use macvz.Prelude.{
  if◌then◌else◌, is_none, contains, contains-cons, contains-append, contains-keep, map_self, Text,
  same_text_iff, codes_key, text_ltb, text_key, number_key, ◌==◌, same_self, ◌≡◌, refl, ◌∙◌, Bool,
  true, false, not, ◌&&◌, ◌||◌, none, List, [], ◌∷◌, ◌++◌, arith,
}
use macvz.Prelude.Sort.{sort, contains-sort}
use macvz.Wireguard.{
  MeshCommand, route_add, route_delete, Runner, Mesh, run_tolerating, err_route_exists,
  err_route_missing, drop_route, delete_stale, add_missing, reconcile_routes, collect,
  collect_peers, route_targets, seed, delete_all, teardown, remove_mesh,
}
use macvz.Wireguard.Config.{Peer}

contains-drop_route :
    (target : Text) (routes : List Text) (k : Text)
    → contains (drop_route target routes) k ≡ (if k == target then false else contains routes k)
contains-drop_route target routes k =
    ground (arith, contains-keep (λ r. not (r == target)) routes k)

module _ (run : Runner) where
  -- What deleting stale routes leaves tracked: the wanted ones as they were, and of the others no
  -- more than before.
  delete_stale-tracked :
      (want : Text → Bool) (walk routes : List Text) (done : List MeshCommand) (k : Text)
      → let kept = (delete_stale run want walk routes done).1 in
        (want k ≡ true → contains kept k ≡ contains routes k)
        × (contains kept k ≡ true → contains routes k ≡ true)
  unfolding delete_stale
  delete_stale-tracked want [] routes done k = (λ h. refl, λ h. h)
  delete_stale-tracked want (target ∷ walk) routes done k = ground (
    arith,
    delete_stale-tracked want walk routes done k,
    delete_stale-tracked want walk (drop_route target routes) (route_delete target ∷ done) k,
    contains-drop_route target routes k,
    same_text_iff k target,
  )

  delete_stale-gone :
      (want : Text → Bool) (walk routes : List Text) (done : List MeshCommand) (k : Text)
      → (delete_stale run want walk routes done).0 ≡ none
      → want k ≡ false
      → contains walk k ≡ true
      → contains (delete_stale run want walk routes done).1 k ≡ false
  unfolding delete_stale contains
  delete_stale-gone want [] routes done k e w m = absurd (ground (arith, m))
  delete_stale-gone want (target ∷ walk) routes done k e w m = ground (
    arith,
    e,
    w,
    m,
    delete_stale-gone want walk routes done k,
    delete_stale-gone want walk (drop_route target routes) (route_delete target ∷ done) k,
    delete_stale-tracked want walk (drop_route target routes) (route_delete target ∷ done) k,
    contains-drop_route target routes k,
    same_text_iff k target,
    same_text_iff target k,
  )

  add_missing-tracked :
      (desired routes : List Text) (done : List MeshCommand) (k : Text)
      → let added = add_missing run desired routes done in
        (contains routes k ≡ true → contains added.1 k ≡ true)
        × (contains added.1 k ≡ true → (contains routes k || contains desired k) ≡ true)
        × (added.0 ≡ none → contains desired k ≡ true → contains added.1 k ≡ true)
  unfolding add_missing contains
  add_missing-tracked [] routes done k = ground arith
  add_missing-tracked (target ∷ desired) routes done k = ground (
    arith,
    add_missing-tracked desired routes done k,
    add_missing-tracked desired (target ∷ routes) (route_add target ∷ done) k,
    contains-cons target routes k,
    same_text_iff target k,
    same_self target,
  )

  reconcile_routes-wanted :
      (desired routes : List Text) (done : List MeshCommand) (k : Text)
      → let (err, tracked, done') = reconcile_routes run desired routes done in
        ((contains routes k && contains desired k) ≡ true → contains tracked k ≡ true)
        × (contains tracked k ≡ true → (contains routes k || contains desired k) ≡ true)
        × (err ≡ none → contains tracked k ≡ contains desired k)
  unfolding reconcile_routes
  reconcile_routes-wanted desired routes done k =
      let stale = delete_stale run (contains desired) routes routes done in
      ground (
        arith,
        delete_stale-tracked (contains desired) routes routes done k,
        delete_stale-gone (contains desired) routes routes done k,
        add_missing-tracked desired stale.1 stale.2 k,
      )

  -- What a command changes of a route, if the host took it, errors that are tolerated included.
  unfoldable pub effect : Text → MeshCommand → List MeshCommand → Bool → Bool
  effect k (route_add target) done before =
      if k == target && is_none (run_tolerating run (err_route_exists ∷ []) (route_add target) done)
      then true
      else before
  effect k (route_delete target) done before =
      if k == target
        && is_none (run_tolerating run (err_route_missing ∷ []) (route_delete target) done)
      then false
      else before
  effect k c done before = before

  -- Whether the commands so far have installed a route.
  unfoldable pub installed : Text → List MeshCommand → Bool
  installed k [] = false
  installed k (c ∷ done) = effect k c done (installed k done)

  delete_stale-installed :
      (want : Text → Bool) (walk routes : List Text) (done : List MeshCommand) (k : Text)
      → contains routes k ≡ installed k done
      → let (err, kept, done') = delete_stale run want walk routes done in
        contains kept k ≡ installed k done'
  unfolding delete_stale installed effect
  delete_stale-installed want [] routes done k h = h
  delete_stale-installed want (target ∷ walk) routes done k h = ground (
    arith,
    h,
    delete_stale-installed want walk routes done k,
    delete_stale-installed want walk (drop_route target routes) (route_delete target ∷ done) k,
    contains-drop_route target routes k,
  )

  add_missing-installed :
      (desired routes : List Text) (done : List MeshCommand) (k : Text)
      → contains routes k ≡ installed k done
      → let (err, tracked, done') = add_missing run desired routes done in
        contains tracked k ≡ installed k done'
  unfolding add_missing installed effect
  add_missing-installed [] routes done k h = h
  add_missing-installed (target ∷ desired) routes done k h = ground (
    arith,
    h,
    add_missing-installed desired routes done k,
    add_missing-installed desired (target ∷ routes) (route_add target ∷ done) k,
    contains-cons target routes k,
    same_text_iff target k,
    same_text_iff k target,
  )

  reconcile_routes-installed :
      (desired routes : List Text) (done : List MeshCommand) (k : Text)
      → contains routes k ≡ installed k done
      → let (err, tracked, done') = reconcile_routes run desired routes done in
        contains tracked k ≡ installed k done'
  unfolding reconcile_routes
  reconcile_routes-installed desired routes done k h =
      let stale = delete_stale run (contains desired) routes routes done in
      ground (
        arith,
        delete_stale-installed (contains desired) routes routes done k h,
        add_missing-installed desired stale.1 stale.2 k,
      )

  -- If the mesh tracks exactly those routes that its commands have installed, then it does so after
  -- reconciling, whether that fails or not; it keeps tracking every wanted route that was tracked,
  -- and tracks none that is neither wanted nor was tracked; and if it does not fail, then exactly
  -- the wanted routes are tracked.
  pub reconcile_routes-tracked :
      (desired routes : List Text) (done : List MeshCommand) (k : Text)
      → contains routes k ≡ installed k done
      → let (err, tracked, done') = reconcile_routes run desired routes done in
        (contains tracked k ≡ installed k done')
        × ((contains routes k && contains desired k) ≡ true → contains tracked k ≡ true)
        × (contains tracked k ≡ true → (contains routes k || contains desired k) ≡ true)
        × (err ≡ none → contains tracked k ≡ contains desired k)
  reconcile_routes-tracked desired routes done k h =
      let (kept, sound, exact) = reconcile_routes-wanted desired routes done k in
      (reconcile_routes-installed desired routes done k h, kept, sound, exact)

-- The targets of the commands that delete a route.
abbrev pub deletes : List MeshCommand → List Text
deletes [] = []
deletes (route_delete target ∷ done) = target ∷ deletes done
deletes (_ ∷ done) = deletes done

-- Some peer has the CIDR among its AllowedIPs.
abbrev pub is_allowed : List Peer → Text → Bool
is_allowed [] k = false
is_allowed (p ∷ peers) k = let rest = is_allowed peers k in contains p.allowed_ips k || rest

collect-contains :
    (out cidrs : List Text) (k : Text)
    → contains (collect out cidrs) k ≡ (contains out k || contains cidrs k)
unfolding collect contains
collect-contains out [] k = ground arith
collect-contains out (cidr ∷ cidrs) k = ground (
  arith,
  collect-contains out cidrs k,
  collect-contains (out ++ cidr ∷ []) cidrs k,
  contains-append out (cidr ∷ []) k,
  same_text_iff cidr k,
)

collect_peers-contains :
    (out : List Text) (peers : List Peer) (k : Text)
    → contains (collect_peers out peers) k ≡ (contains out k || is_allowed peers k)
unfolding collect_peers
collect_peers-contains out [] k = ground arith
collect_peers-contains out (p ∷ peers) k = ground (
  arith,
  collect_peers-contains (collect out p.allowed_ips) peers k,
  collect-contains out p.allowed_ips k,
)

pub contains-route_targets :
    (peers : List Peer) (k : Text) → contains (route_targets peers) k ≡ is_allowed peers k
unfolding route_targets contains
contains-route_targets peers k =
    let all = collect_peers [] peers in
    let sorted = contains-sort text_ltb (λ x. x) all k in
    (rw (map_self (sort text_ltb all), map_self all) at sorted) ∙ collect_peers-contains [] peers k

seed-contains :
    (targets routes : List Text) (k : Text)
    → contains (seed targets routes) k ≡ (contains targets k || contains routes k)
unfolding seed contains
seed-contains [] routes k = refl
seed-contains (target ∷ targets) routes k = ground (
  arith,
  seed-contains targets routes k,
  seed-contains targets (target ∷ routes) k,
  contains-cons target routes k,
  same_text_iff target k,
)

delete_all-deletes :
    (walk : List Text) (done : List MeshCommand) (k : Text)
    → contains (deletes (delete_all walk done)) k ≡ (contains walk k || contains (deletes done) k)
unfolding delete_all contains
delete_all-deletes [] done k = refl
delete_all-deletes (target ∷ walk) done k =
    ground (arith, delete_all-deletes walk (route_delete target ∷ done) k)

-- Removing the mesh asks to delete exactly the routes that the peers' AllowedIPs or the tracked
-- set name, and then tracks none.
pub remove_mesh-deletes :
    (m : Mesh) (done : List MeshCommand) (k : Text)
    → let (m', done') = remove_mesh m done in
      (contains (deletes done') k
        ≡ (is_allowed m.cfg.peers k || contains m.routes k || contains (deletes done) k))
      × (m'.routes ≡ [])
      × (m'.up ≡ false)
unfolding remove_mesh teardown
remove_mesh-deletes m done k = (
  ground (
    arith,
    delete_all-deletes (seed (route_targets m.cfg.peers) m.routes) done k,
    seed-contains (route_targets m.cfg.peers) m.routes k,
    contains-route_targets m.cfg.peers k,
  ),
  refl,
  refl,
)
