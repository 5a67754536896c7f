-- ===== src/Localnet/Tests.antt =====
-- The local gateway at concrete requests.
use ormas_subnet.Common.{
  ◌≡◌, ◌≤◌, ◌+◌, refl, String, List, [], ◌∷◌, some, true, pos, finite, str, boolean, obj, Entries,
  end, entry, ◌>>=◌, ◌>>◌,
}
use ormas_subnet.Localnet.{Seed, fresh, Recorded}
use ormas_subnet.Localnet.Settlement.{
  handle_complete, read_completion, settle_completion, derive_settlement,
}
use ormas_subnet.Localnet.Settlement.Laws.{Appends, handle_complete-Appends}
use ormas_subnet.Localnet.Requests.{Request, post, posts, handle_claim, leases_path}
use ormas_subnet.Localnet.Requests.Once.{leases, left_over, posts_lease_once}

abbrev seed : Seed
seed = record {
  task_id = "t1";
  base_commit = "b";
  verify_command = "make test";
  repo_url = "";
  brief = "local demo task";
  allowed_paths = "out.txt" ∷ [];
  budget_usd = finite (pos 1) (pos 0);
  outcome_price_usd = finite (pos 2) (pos 0);
  repo_id = "repo1";
}

-- A verified completion whose commit is forty characters that are no hexadecimal digits.
abbrev completion : Entries
completion = entry "schema_version" (str "ormas-runner-v1") (
    entry "receipt" (obj (entry "schema_version" (str "ormas-runner-v1") end)) (
      entry "terminal"
        (obj (
          entry "verification_state" (str "verified")
            (entry "result_commit" (str "zzzzzzzzzzzzzzzzzzzzzzzzzzzzzzzzzzzzzzzz") end)))
        (entry "capture" (obj (entry "scope_ok" (boolean true) end)) end)))

abbrev settlements : List Recorded → List String
settlements [] = []
settlements (r ∷ rs) = r.receipt.settlement ∷ settlements rs

any_forty_characters_pay :
    settlements (handle_complete seed fresh completion).gateway.receipts ≡ "paid" ∷ []
unfolding handle_complete read_completion settle_completion derive_settlement ◌>>=◌ ◌>>◌
any_forty_characters_pay = refl

abbrev claim : Request
claim = record {
  path = leases_path;
  body = some (entry "schema_version" (str "ormas-runner-v1") (entry "runner_id" (str "r") end));
}

handle_complete-Appends_example : Appends seed fresh (handle_complete seed fresh completion)
handle_complete-Appends_example = handle_complete-Appends seed fresh completion

posts_lease_once_example :
    leases (posts seed fresh (claim ∷ claim ∷ [])).served
      + left_over (posts seed fresh (claim ∷ claim ∷ [])).gateway
    ≤ 1
posts_lease_once_example = posts_lease_once seed fresh (claim ∷ claim ∷ [])

one_of_two_claims : leases (posts seed fresh (claim ∷ claim ∷ [])).served ≡ 1
unfolding posts post handle_claim leases
one_of_two_claims = refl
