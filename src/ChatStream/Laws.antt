-- ===== src/ChatStream/Laws.antt =====
-- The shape of a converted stream, and that it does not depend on how the text was cut into chunks.
use llmxy.Prelude.{List, [], ◌∷◌, ◌++◌, false, ◌≡◌, refl, sym, ap, ◌∙◌}
use llmxy.ChatStream.{
  Text, Chunk, Event, Stream, new_stream, start_events, take_chunks, turned, split, take_parts,
  feed, feed_all, finish, convert,
}
use llmxy.ChatStream.Split.{
  append_nil, append_assoc, split-append, IsOnePart, split-IsOnePart, split_resume,
}
use llmxy.ChatStream.Chunks.{
  contents, Shape, Flags, holding, chunks-Shape, take_chunks-append, take_chunks-holding,
}

unfoldable pub flat : List Text → Text
flat [] = []
flat (t ∷ ts) = t ++ flat ts

module _ (objects : Text → List Chunk) where
  unfoldable pub objects_of : List Text → List Chunk
  objects_of [] = []
  objects_of (p ∷ ps) = objects p ++ objects_of ps

module _ (objects : Text → List Chunk) where
  objects_of-append :
      (ps qs : List Text)
      → objects_of objects (ps ++ qs) ≡ objects_of objects ps ++ objects_of objects qs
  unfolding objects_of
  objects_of-append [] qs = refl
  objects_of-append (p ∷ ps) qs =
      ap (λ r. objects p ++ r) (objects_of-append ps qs)
      ∙ sym (append_assoc (objects p) (objects_of objects ps) (objects_of objects qs))

  take_parts-take_chunks :
      (ps : List Text) (s : Stream)
      → take_parts objects ps s ≡ take_chunks (objects_of objects ps) s
  unfolding take_parts objects_of
  take_parts-take_chunks [] s = unfold take_chunks in refl
  take_parts-take_chunks (p ∷ ps) s =
      rw (take_parts-take_chunks ps (take_chunks (objects p) s).1)
        (sym (take_chunks-append (objects p) (objects_of objects ps) s))

  abbrev unsent : Stream → List Event × Stream
  unsent s = ([], s)

  -- What a stream sends for the parts, with what is left in its buffer.
  abbrev sent : List Text × Text → Stream → List Event × Stream
  sent r s = let t = take_chunks (objects_of objects r.0) s in (t.0, holding (turned r.1 []) t.1)

  feed-sent :
      (text part : Text) (s : Stream)
      → s.buffer ≡ turned part []
      → IsOnePart part
      → feed objects text s ≡ sent (split part text) s
  unfolding feed
  feed-sent text part s e h =
      let resumed : split [] (s.buffer ++ text) ≡ split part text =
        ap (λ b. split [] (b ++ text)) e ∙ split_resume part text h in
      rw resumed (
        take_parts-take_chunks (split part text).0 (holding (turned (split part text).1 []) s)
        ∙ take_chunks-holding (objects_of objects (split part text).0)
            (turned (split part text).1 []) s)

  sent-append :
      (ps qs : List Text) (b r : Text) (s : Stream)
      → sent (ps ++ qs, r) s ≡ (
        (sent (ps, b) s).0 ++ (sent (qs, r) (sent (ps, b) s).1).0,
        (sent (qs, r) (sent (ps, b) s).1).1,
      )
  sent-append ps qs b r s =
      let s1 = (take_chunks (objects_of objects ps) s).1 in
      rw
        (
          objects_of-append ps qs,
          take_chunks-append (objects_of objects ps) (objects_of objects qs) s,
          take_chunks-holding (objects_of objects qs) (turned b []) s1,
        )
        refl

  feed_all-sent :
      (texts : List Text) (part : Text) (s : Stream)
      → s.buffer ≡ turned part []
      → IsOnePart part
      → feed_all objects texts s ≡ sent (split part (flat texts)) s
  unfolding feed_all flat
  feed_all-sent [] part s e h =
      unfold split objects_of take_chunks in ap (λ b. unsent (holding b s)) e
  feed_all-sent (t ∷ ts) part s e h =
      let r = split part t in
      let s1 = (sent r s).1 in
      let rest = feed_all-sent ts r.1 s1 refl (split-IsOnePart part t h) in
      rw (feed-sent t part s e h, rest, split-append part t (flat ts))
        (sym (sent-append r.0 (split r.1 (flat ts)).0 r.1 (split r.1 (flat ts)).1 s))

  new-Flags : Flags false new_stream
  unfolding new_stream
  new-Flags = (refl, refl)

  convert-sent :
      (texts : List Text)
      → convert objects texts
        ≡ (take_chunks (objects_of objects (split [] (flat texts)).0) new_stream).0
          ++ finish (take_chunks (objects_of objects (split [] (flat texts)).0) new_stream).1
  unfolding convert
  convert-sent texts =
      rw
        (feed_all-sent texts [] new_stream (unfold new_stream turned in refl)
          (unfold split turned in refl))
        (unfold finish start_events in refl)

  flat-one : (text : Text) → flat (text ∷ []) ≡ text
  unfolding flat
  flat-one text = append_nil text

  -- The converted stream does not depend on how the text of the upstream was cut into chunks.
  pub convert-flat : (texts : List Text) → convert objects texts ≡ convert objects (flat texts ∷ [])
  convert-flat texts =
      convert-sent texts
      ∙ ap
          (λ w.
            let t = take_chunks (objects_of objects (split [] w).0) new_stream in t.0 ++ finish t.1)
          (sym (flat-one (flat texts)))
      ∙ sym (convert-sent (flat texts ∷ []))

  -- A converted stream starts its message and its content block once, before anything else and even
  -- if the upstream sent nothing; then come the contents of the events that were completed, in order and
  -- unchanged; and it ends the block and the message once.
  pub convert-Shape :
      (texts : List Text)
      → Shape (contents (objects_of objects (split [] (flat texts)).0)) (convert objects texts)
  convert-Shape texts =
      rw (convert-sent texts)
        (chunks-Shape (objects_of objects (split [] (flat texts)).0) new_stream new-Flags)
