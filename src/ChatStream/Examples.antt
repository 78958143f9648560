-- ===== src/ChatStream/Examples.antt =====
-- A stream of two events, the second one empty, and an unfinished third; the separators are cut in two.
use llmxy.Prelude.{◌≡◌, refl, some, List, [], ◌∷◌}
use llmxy.ChatStream.{Text, Chunk, split, convert}
use llmxy.ChatStream.Chunks.{contents, Shape}
use llmxy.ChatStream.Laws.{flat, objects_of, convert-flat, convert-Shape}

-- Each event that is not empty is one object, whose content is the event.
objects : Text → List Chunk
objects [] = []
objects (c ∷ cs) =
    record {
      prompt_tokens = some 7;
      completion_tokens = some 1;
      finish_reason = some "length";
      content = some (c ∷ cs);
    }
    ∷ []

abbrev texts : List Text
texts = (104 ∷ 10 ∷ []) ∷ (10 ∷ 10 ∷ []) ∷ (10 ∷ 105 ∷ []) ∷ []

convert-flat_example : convert objects texts ≡ convert objects (flat texts ∷ [])
convert-flat_example = convert-flat objects texts

convert-Shape_example :
    Shape (contents (objects_of objects (split [] (flat texts)).0)) (convert objects texts)
convert-Shape_example = convert-Shape objects texts

one_content : contents (objects_of objects (split [] (flat texts)).0) ≡ (104 ∷ []) ∷ []
unfolding contents objects_of objects split flat
one_content = refl
