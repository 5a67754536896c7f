-- ===== src/Localnet/Requests/Once.antt =====
-- The one job of the local gateway is leased at most once.
use ormas_subnet.Common.{
  ◌≡◌, ap, assertion_error, ◌≤◌, ◌+◌, refl, Bool, true, false, String, List, [], ◌∷◌, Option, none,
  some, ℕ, ◌==◌, Entries, Result, ok, err, str_eq, eq_iff, arith, if◌then◌else◌, has_suffix,
  get_or_null, ◌&&◌,
}
use ormas_subnet.Localnet.{Seed, Gateway, Reply, Response, Step, raises}
use ormas_subnet.Localnet.Settlement.{is_runner_v1, handle_complete}
use ormas_subnet.Localnet.Requests.{
  handle_registration, handle_bind, handle_claim, handle_heartbeat, post, posts, Request, Served,
  leases_path, answer_with,
}

-- The claim was answered 200, with a lease.
abbrev pub is_leased : String → Result Response → ℕ
is_leased path (err e) = 0
is_leased path (ok r) = if str_eq path leases_path && (r.status_code == 200) then 1 else 0

unfoldable pub leases : List Served → ℕ
leases [] = 0
leases (s ∷ served) = is_leased s.path s.response + leases served

-- What may still be leased.
abbrev pub left_over : Gateway → ℕ
left_over g = if g.claimed then 0 else 1

complete_keeps_claimed :
    (seed : Seed) (g : Gateway) (body : Entries)
    → (handle_complete seed g body).gateway.claimed ≡ g.claimed
unfolding handle_complete
complete_keeps_claimed seed g body = ground arith

handle_claim-leases :
    (seed : Seed) (g : Gateway) (body : Entries)
    → is_leased leases_path (handle_claim seed g body).response
        + left_over (handle_claim seed g body).gateway
      ≤ left_over g
unfolding handle_claim
handle_claim-leases seed g body = ground arith

-- A step leases no more than what was left.
abbrev Fits : String → Gateway → Step → Type 0
Fits path g s = is_leased path s.response + left_over s.gateway ≤ left_over g

not_leased :
    (path : String) (m : Result Response) → str_eq path leases_path ≡ false → is_leased path m ≡ 0
not_leased path (ok r) h = ground arith
not_leased path (err e) h = refl

not_a_claim :
    (path : String) (g : Gateway) (s : Step)
    → str_eq path leases_path ≡ false
    → s.gateway.claimed ≡ g.claimed
    → Fits path g s
not_a_claim path g s h k = ground (arith, not_leased path s.response h)

another_path :
    (path other : String)
    → str_eq other leases_path ≡ false
    → str_eq path other ≡ true
    → str_eq path leases_path ≡ false
another_path path other n h =
    ground (arith, eq_iff path other, eq_iff other leases_path, eq_iff path leases_path)

claim_path :
    (path : String) (g : Gateway) (s : Step)
    → str_eq path leases_path ≡ true
    → Fits leases_path g s
    → Fits path g s
claim_path path g s h k = ground (arith, eq_iff path leases_path)

answer_with_keeps {ℓ} :
    {A : Type ℓ} (g : Gateway) (m : Result A) (reply : A → Reply)
    → (answer_with g m reply).gateway ≡ g
answer_with_keeps g (ok a) reply = refl
answer_with_keeps g (err e) reply = refl

-- `post` with its tests decided.
abbrev routed : Seed → Gateway → Entries → Bool → Bool → Bool → Bool → Bool → Bool → Step
routed seed g body version registers binds claims beats completes =
    if version
    then (if registers
        then handle_registration g body
        else if binds
        then handle_bind g body
        else if claims
        then handle_claim seed g body
        else if beats
        then handle_heartbeat g body
        else if completes
        then handle_complete seed g body
        else raises g assertion_error)
    else raises g assertion_error

routed-Fits :
    (seed : Seed) (g : Gateway) (path : String) (body : Entries) (v r b c h f : Bool)
    → (r ≡ true → str_eq path leases_path ≡ false)
    → (b ≡ true → str_eq path leases_path ≡ false)
    → str_eq path leases_path ≡ c
    → Fits path g (routed seed g body v r b c h f)
unfolding handle_registration handle_bind handle_heartbeat
routed-Fits seed g path body false r b c h f rl bl cl = ground arith
routed-Fits seed g path body true true b c h f rl bl cl =
    not_a_claim path g (handle_registration g body) (rl refl)
      (ap (λ g'. g'.claimed) (answer_with_keeps (record g { registered = some body }) _ _))
routed-Fits seed g path body true false true c h f rl bl cl =
    not_a_claim path g (handle_bind g body) (bl refl)
      (ap (λ g'. g'.claimed) (answer_with_keeps (record g { bound = some body }) _ _))
routed-Fits seed g path body true false false true h f rl bl cl =
    claim_path path g (handle_claim seed g body) cl (handle_claim-leases seed g body)
routed-Fits seed g path body true false false false true f rl bl cl =
    not_a_claim path g (handle_heartbeat g body) cl refl
routed-Fits seed g path body true false false false false true rl bl cl =
    not_a_claim path g (handle_complete seed g body) cl (complete_keeps_claimed seed g body)
routed-Fits seed g path body true false false false false false rl bl cl = ground arith

post-leases :
    (seed : Seed) (g : Gateway) (path : String) (body : Option Entries)
    → Fits path g (post seed g path body)
unfolding post
post-leases seed g path none = ground arith
post-leases seed g path (some body) =
    routed-Fits seed g path body (is_runner_v1 (get_or_null "schema_version" body)) _ _ _
      (has_suffix "/heartbeat" path) (has_suffix "/complete" path)
      (another_path path "/api/runner/v1/registrations" refl)
      (another_path path "/api/runner/v1/repositories" refl) refl

-- Whatever is posted, in whatever order and with whatever failures, at most one claim is answered
-- with a lease, and none once the gateway's job has been claimed.
pub posts_lease_once :
    (seed : Seed) (g : Gateway) (requests : List Request)
    → leases (posts seed g requests).served + left_over (posts seed g requests).gateway
      ≤ left_over g
unfolding posts leases
posts_lease_once seed g [] = ground arith
posts_lease_once seed g (r ∷ rs) = ground (
  arith,
  post-leases seed g r.path r.body,
  posts_lease_once seed (post seed g r.path r.body).gateway rs,
)
