-- ===== src/ImageRelay/Examples.antt =====
-- Alice asks for two images: the first upstream fails, the second delivers one.
use llmxy.Prelude.{
  ℕ, arith, Bool-cases, inl, inr, pos, ◌≡◌, refl, some, [], ◌∷◌, true, false, String, if◌then◌else◌,
  ◌==◌,
}
use llmxy.Models.{Model, Channel}
use llmxy.Table.{get}
use llmxy.Samples.{noon, db, alice, key, gpt}
use llmxy.Providers.{TextOps}
use llmxy.ImageRelay.{unreported, counts, Request, Reply, State, Outcome, execute_image_relay}
use llmxy.ImageRelay.Moves.{IsOpen}
use llmxy.ImageRelay.Laws.{IsSound, IsSettled, execute_image_relay_lem}

-- Texts that are in lower case already.
abbrev str : TextOps
str = record { fold = λ s. s; dots = λ s. s; family_of = λ s. "openai"; is_azure_url = λ s. false }

abbrev channel : Channel
channel = record {
  id = 1;
  provider_type = "openai";
  connector_type = "openai";
  base_url = "https://api.example.com";
  enabled = true;
}

abbrev painter : ℕ → Model
painter id = record gpt { id = id; kind = "image" }

abbrev request : Request
request = record {
  size = "512x512";
  quality = "standard";
  n = some (pos 2);
  prompt_text = "cat";
  request_id = "r1";
  user_facing_model = "painter";
}

abbrev reply_of : Model → Channel → Reply String
reply_of m c =
    if m.id == 1
    then record { status_code = 504; images = 0; usage = unreported; body = "late" }
    else record { status_code = 200; images = 1; usage = counts (pos 10) (pos 20); body = "cat" }

abbrev session : State
session = record { db = db; user = alice; api_key = some key }

session-IsOpen : IsOpen session
unfolding get
session-IsOpen = (
  alice,
  record {
    users_keyed = (refl, (refl, tt));
    subs_keyed = (refl, (refl, (refl, tt)));
    row_found = refl;
  },
)

replies-IsSound : (m : Model) (c : Channel) → IsSound (reply_of m c).usage
replies-IsSound m c = elim (Bool-cases (m.id == 1)) [
  | inl first ↦ rw first tt
  | inr other ↦ rw other (omega arith, omega arith)
]

execute_image_relay_lem_example :
    (o : Outcome String) × (execute_image_relay true noon request str reply_of session
        ((painter 1, channel) ∷ (painter 2, channel) ∷ [])
      ≡ some o)
    × IsSettled session o
execute_image_relay_lem_example =
    execute_image_relay_lem true noon request str reply_of session
      ((painter 1, channel) ∷ (painter 2, channel) ∷ []) replies-IsSound session-IsOpen
