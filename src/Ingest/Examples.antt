-- ===== src/Ingest/Examples.antt =====
-- The theorem on an ingested entry, applied to a chat of alice with a classifier and a Redis in memory.
use llmxy.Prelude.{refl, some, [], ◌∷◌, true, false}
use llmxy.Table.{get}
use llmxy.Samples.{noon, db, alice, gpt}
use llmxy.Billing.Charge.Laws.{IsReady}
use llmxy.QuotaCache.Memory.{Memory, empty, memory, memory-Documented}
use llmxy.QuotaCache.Hydrate.{hydrate_user_quota}
use llmxy.QuotaCache.Hydrate.Laws.{hydrate_user_quota-Mirrors}
use llmxy.QuotaCache.Check.Laws.{Mirrors}
use llmxy.Ingest.{Entry, ingest_entry}
use llmxy.Ingest.Laws.{IsBilled, ingest_entry-IsBilled}

abbrev chat : Entry
chat = record {
  billed_sync = false;
  request_id = "req-1";
  user_id = some 1;
  api_key_id = some 4;
  model_id = some (some 1);
  user_facing_model = some "gpt";
  cls_model_id = some 1;
  cls_prompt_tokens = 500000;
  cls_status = some "ok";
  response_code = 200;
  prompt_tokens = 1000000;
  completion_tokens = 200000;
}

warm : Memory
warm = hydrate_user_quota memory noon db 1 empty

warm-Mirrors : Mirrors memory db noon alice warm
unfolding warm get
warm-Mirrors =
    hydrate_user_quota-Mirrors memory memory-Documented db noon alice empty
      (refl, (refl, (refl, tt))) refl refl

alice-IsReady : IsReady db alice alice
unfolding get
alice-IsReady = record {
  users_keyed = (refl, (refl, tt));
  subs_keyed = (refl, (refl, (refl, tt)));
  row_found = refl;
}

ingest_entry-IsBilled_example :
    IsBilled memory memory-Documented db noon 1
      (ingest_entry memory (λ d. 20) false false false true noon (gpt ∷ []) db chat warm)
ingest_entry-IsBilled_example =
    ingest_entry-IsBilled memory memory-Documented (λ d. 20) false false true noon (gpt ∷ []) db
      chat alice warm refl alice-IsReady warm-Mirrors
