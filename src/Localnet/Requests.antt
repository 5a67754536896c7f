-- ===== src/Localnet/Requests.antt =====
-- The requests of ormas_subnet/localnet.py: `post` and its handlers.
pub mod Once
use ormas_subnet.Common.{
  require_key, Bool, true, false, String, List, [], ◌∷◌, ◌++◌, Option, none, some, pos, Value, null,
  int, float, str, arr, obj, Entries, end, entry, of_list, map, get_or_null, assertion_error,
  Result, ok, err, str_eq, has_suffix, if◌then◌else◌,
}
use ormas_subnet.Localnet.{Seed, Gateway, Reply, no_body, json, Response, Step, answers, raises}
use ormas_subnet.Localnet.Settlement.{is_runner_v1, handle_complete}

-- Answer 200 with what `body` makes, or raise.
abbrev pub answer_with {ℓ} : {A : Type ℓ} → Gateway → Result A → (A → Reply) → Step
answer_with g (ok a) reply = answers g 200 (reply a)
answer_with g (err e) reply = raises g e

abbrev pub registration_reply : Value → Reply
registration_reply runner = json (
    entry "runner_id" runner (
      entry "poll_interval_s" (int (pos 15)) (
        entry "lease_ttl_s" (int (pos 300))
          (entry "heartbeat_s" (int (pos 90)) (entry "protocol" (str "ormas-runner-v1") end)))))

unfoldable pub handle_registration : Gateway → Entries → Step
handle_registration g body =
    answer_with (record g { registered = some body }) (require_key "runner_id" body)
      registration_reply

abbrev pub bind_fields : Result Value → Result Value → Result Entries
bind_fields (err e) project = err e
bind_fields (ok repo) (err e) = err e
bind_fields (ok repo) (ok project) = ok (entry "repo_id" repo (entry "project_id" project end))

unfoldable pub handle_bind : Gateway → Entries → Step
handle_bind g body =
    answer_with (record g { bound = some body })
      (bind_fields (require_key "repo_id" body) (require_key "project_id" body)) json

unfoldable pub lease_wire : Seed → Entries
lease_wire seed = entry "schema_version" (str "ormas-runner-v1") (
    entry "lease_id" (str "local-lease-1") (
      entry "task_id" (str seed.task_id) (
        entry "expires_at" (str "2026-01-01T00:05:00Z") (
          entry "selected_cell" (str "code-edit-small") (
            entry "provider_pin" (str "unset") (
              entry "fallback_policy" (str "unset") (
                entry "hold_ref" (str "unset") (
                  entry "now" (str "2026-01-01T00:00:00Z")
                    (entry "outcome_price_usd" (float seed.outcome_price_usd) end)))))))))

-- `"b" * 64`
abbrev pub packet_sha256 : String
packet_sha256 = "bbbbbbbbbbbbbbbbbbbbbbbbbbbbbbbbbbbbbbbbbbbbbbbbbbbbbbbbbbbbbbbb"

unfoldable pub draft_wire : Seed → Value → Entries
draft_wire seed runner = entry "schema_version" (str "ormas-runner-v1") (
    entry "task_id" (str seed.task_id) (
      entry "runner_id" runner (
        entry "repo_id" (str seed.repo_id) (
          entry "base_commit" (str seed.base_commit) (
            entry "brief" (str seed.brief) (
              entry "verify_command" (str seed.verify_command) (
                entry "allowed_paths" (arr (of_list (map str seed.allowed_paths))) (
                  entry "budget_usd" (float seed.budget_usd) (
                    entry "work_packet" (obj (entry "task" (str seed.brief) end)) (
                      entry "work_packet_sha256" (str packet_sha256) (
                        entry "attempt" (int (pos 0)) (
                          entry "parent_job_id" (str "") (
                            entry "repair_findings" (arr (of_list []))
                              (entry "repo_url" (str seed.repo_url) end))))))))))))))

abbrev pub lease_reply : Seed → Value → Reply
lease_reply seed runner =
    json (entry "lease" (obj (lease_wire seed)) (entry "draft" (obj (draft_wire seed runner)) end))

unfoldable pub handle_claim : Seed → Gateway → Entries → Step
handle_claim seed g body =
    if g.claimed
    then answers (record g { claims = g.claims ++ (body ∷ []) }) 204 no_body
    else answer_with (record g { claims = g.claims ++ (body ∷ []); claimed = true })
        (require_key "runner_id" body) (lease_reply seed)

unfoldable pub handle_heartbeat : Gateway → Entries → Step
handle_heartbeat g body =
    answers (record g { heartbeats = g.heartbeats ++ (body ∷ []) }) 200
      (json (
        entry "expires_at" (str "2026-01-01T00:05:00Z")
          (entry "now" (str "2026-01-01T00:00:30Z") end)))

abbrev pub leases_path : String
leases_path = "/api/runner/v1/leases"

unfoldable pub post : Seed → Gateway → String → Option Entries → Step
post seed g path none = raises g assertion_error
post seed g path (some body) =
    if is_runner_v1 (get_or_null "schema_version" body)
    then (if str_eq path "/api/runner/v1/registrations"
        then handle_registration g body
        else if str_eq path "/api/runner/v1/repositories"
        then handle_bind g body
        else if str_eq path leases_path
        then handle_claim seed g body
        else if has_suffix "/heartbeat" path
        then handle_heartbeat g body
        else if has_suffix "/complete" path
        then handle_complete seed g body
        else raises g assertion_error)
    else raises g assertion_error

pub record Request : Type 0 where
  pub path : String
  pub body : Option Entries

-- The requests one after the other: the gateway at the end, and each path with its response. A
-- request that raises leaves the gateway to the next one, as an object that callers share is.
pub record Served : Type 0 where
  pub path : String
  pub response : Result Response

pub record Session : Type 0 where
  pub gateway : Gateway
  pub served : List Served

abbrev pub serve : String → Step → Session → Session
serve path s rest = record rest {
  served = record { path = path; response = s.response } ∷ rest.served;
}

unfoldable pub posts : Seed → Gateway → List Request → Session
posts seed g [] = record { gateway = g; served = [] }
posts seed g (r ∷ rs) =
    serve r.path (post seed g r.path r.body) (posts seed (post seed g r.path r.body).gateway rs)
