-- ===== src/Budgets/Tests.antt =====
-- Budget checks on concrete caps and rows.
use agnos_proxy_oss.Base.{
  ◌+◌, ◌≤◌, ◌<◌, ◌≡◌, ◌↔◌, refl, true, false, some, none, [], ◌∷◌, arith, All, ◌==◌, string_eq,
}
use agnos_proxy_oss.Budgets.{
  CacheKey, Ledger, RequestLog, add_live_spend, model_key, workspace, workspace_key,
}
use agnos_proxy_oss.Budgets.Check.{Check, check_budget, check_key}
use agnos_proxy_oss.Budgets.Totals.{spend, sum_cost}
use agnos_proxy_oss.Budgets.Decision.{first_over, hierarchy, is_allowed, check_budget-eq-first_over}
use agnos_proxy_oss.Budgets.Live.{
  live, check_budget-add_live_spend, spend-add_live_spend, live-model_part,
}
use agnos_proxy_oss.Budgets.Alerts.{alerts_of, count_at, alerts_of-le}

abbrev empty : Ledger
empty = record { cache = []; live_delta = [] }

abbrev asked : Check
asked = record {
  client_id = some "c";
  workspace_id = "w";
  user_id = some "u";
  caps = record {
    client_cap = none;
    ws_cap = some 100;
    user_cap = some 40;
    pm_match = some ("gpt", 70);
  };
}

abbrev row : RequestLog
row = record {
  client_id = some "c";
  workspace_id = "w";
  user_id = some "u";
  provider_model_id = "gpt-4o";
  timestamp = 900;
  cost_usd = 30;
}

check_budget-eq-first_over_example :
    ((check_budget asked 500 (some (row ∷ [])) 1000 1001 (empty, [])).0
      ≡ first_over (
          hierarchy
            (some "u")
            asked.caps
            (spend (check_key asked) 500 (some (row ∷ [])) 1000 1001 empty).0))
    × ((is_allowed (check_budget asked 500 (some (row ∷ [])) 1000 1001 (empty, [])).0 ≡ true)
        ↔ All
            (λ v. v.2 < v.1)
            (hierarchy
              (some "u")
              asked.caps
              (spend (check_key asked) 500 (some (row ∷ [])) 1000 1001 empty).0))
check_budget-eq-first_over_example =
    check_budget-eq-first_over asked 500 (some (row ∷ [])) 1000 1001 empty [] refl

check_budget-add_live_spend_example :
    is_allowed
      (check_budget asked 500 none 1000 1001
        (add_live_spend (some "c") "w" (some "u") 120 (some "gpt-4o") 990 empty, [])).0
    ≡ false
check_budget-add_live_spend_example =
    check_budget-add_live_spend (some "c") (some "u") 120 99 (some "gpt-4o") 990 empty asked 500
      none 1000 1001 [] refl (omega arith) (omega arith)

abbrev asked_key : CacheKey
asked_key = ((some "c", "w"), (some "u", some "gpt"))

spend-add_live_spend_example :
    (spend
      ((some "c", "w"), (some "u", none))
      500
      (some (row ∷ []))
      1000
      1001
      (add_live_spend (some "c") "w" (some "u") 30 (some "gpt-4o") 990 empty)).0.workspace_spend
    ≡ (30 + sum_cost 500 (λ r. r.workspace_id == "w") []) + (live (workspace_key "w") 1001 [] + 30)
spend-add_live_spend_example =
    spend-add_live_spend (some "c") (some "u") 29 (some "gpt-4o") 990 empty (some "u") none 500 row
      [] 1000 1001 refl (omega arith) (omega arith)

live-model_part_example :
    live
      (model_key "w" (some "gpt"))
      1001
      (add_live_spend (some "c") "w" (some "u") 30 (some "gpt-4o") 990 empty).live_delta
    ≡ live (model_key "w" (some "gpt")) 1001 []
live-model_part_example =
    live-model_part (some "c") "w" (some "u") 30 "gpt-4o" "gpt" 990 1001 empty (omega arith) refl

alerts_of-le_example :
    count_at 80 (alerts_of "w" workspace 100 ((85, 10) ∷ (90, 20) ∷ (95, 30) ∷ []) []) ≤ 1
alerts_of-le_example =
    alerts_of-le "w" workspace 100 80 10 ((85, 10) ∷ (90, 20) ∷ (95, 30) ∷ []) []
      ((omega arith, omega arith), ((omega arith, omega arith), ((omega arith, omega arith), tt)))
