-- ===== src/Tariffs/Samples.antt =====
-- The properties of plans and budgets at a concrete catalog and ledger.
use octo_forge.Base.{String, Bool, true, false, none, some, [], ◌∷◌, eq_iff, arith, IsKeyed}
use octo_forge.Tariffs.Catalog.{ℤ, pos, TariffLimits, Tariff, Catalog, tariff_code}
use octo_forge.Tariffs.Limits.{UsageEvent, user_message, interactive, Cache, totals_today}

abbrev no_limits : TariffLimits ℤ
no_limits = record {
  daily_tokens = none;
  daily_user_messages = some (pos 3);
  daily_assistant_messages = none;
  max_cron_jobs = none;
  max_datasets = none;
  max_memory_chars = none;
}

abbrev coded : String → Bool → Tariff
coded code d = record {
  id = code;
  code = code;
  title = "A plan";
  features = "vision" ∷ [];
  limits = record {
    daily_tokens = some 1000;
    daily_user_messages = some 3;
    daily_assistant_messages = none;
    max_cron_jobs = some 5;
    max_datasets = none;
    max_memory_chars = none;
  };
  created_at = 1;
  updated_at = 1;
  is_default = d;
}

abbrev catalog : Catalog
catalog = record {
  tariffs = coded "basic" true ∷ coded "pro" false ∷ [];
  bindings = record { id = "b"; user_id = "ann"; tariff_id = "pro"; assigned_at = 2 } ∷ [];
}

catalog-IsKeyed : IsKeyed tariff_code catalog.tariffs
catalog-IsKeyed = ((λ e. ground (arith, (eq_iff "pro" "basic").1 e), tt), (tt, tt))

abbrev event : UsageEvent
event = record {
  user_id = "ann";
  kind = user_message;
  origin = interactive;
  prompt_tokens = 10;
  completion_tokens = 0;
  quantity = 1;
  dialog_id = none;
  exchange_id = none;
  task_id = none;
  created_at = none;
}

-- a history: the totals of an earlier day are asked for, and an event is recorded
abbrev yesterday : Cache
yesterday = (totals_today 500 "ann" 50 7 7 [] []).1

abbrev stale : Cache
stale =
    record {
      user_id = "ann";
      expires = 50;
      day = 100;
      totals = record {
        prompt_tokens = 0;
        completion_tokens = 0;
        user_messages = 0;
        assistant_messages = 0;
      };
    }
    ∷ []
