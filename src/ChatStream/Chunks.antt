-- ===== src/ChatStream/Chunks.antt =====
-- What a converted stream sends for a sequence of objects.
use llmxy.Prelude.{
  ℕ, Option, none, some, List, [], ◌∷◌, ◌++◌, map, Bool, true, false, ◌≡◌, refl, sym, String, ◌⊎◌,
  inl, inr, Option-cases,
}
use llmxy.ChatStream.{
  Text, Chunk, StopReason, Event, message_start, content_block_start, content_block_stop,
  message_stop, content_block_delta, message_delta, Stream, start_events, note_usage, note_finish,
  emit, take_chunk, take_chunks, finish,
}
use llmxy.ChatStream.Split.{append_assoc}

-- The contents of the objects, in order.
unfoldable pub contents : List Chunk → List Text
contents [] = []
contents (c ∷ cs) = elim c.content [ none ↦ contents cs | some t ↦ t ∷ contents cs ]

-- The answer: one start, the contents in order, one end.
abbrev pub Shape : List Text → List Event → Type 0
Shape texts events =
    (p : ℕ) × (reason : StopReason) × (n : ℕ) × (events
      ≡ message_start p
        ∷ content_block_start
        ∷ (map content_block_delta texts
            ++ content_block_stop ∷ message_delta reason n ∷ message_stop ∷ []))

-- Both flags of the stream say `b`.
abbrev pub Flags : Bool → Stream → Type 0
Flags b s = (s.started ≡ b) × (s.content_started ≡ b)

finish-Flags : (b : Bool) (o : Option String) (s : Stream) → Flags b s → Flags b (note_finish o s)
unfolding note_finish
finish-Flags b none s h = h
finish-Flags b (some r) s h = h

note-Flags :
    (b : Bool) (c : Chunk) (s : Stream)
    → Flags b s
    → Flags b (note_finish c.finish_reason (note_usage c s))
note-Flags b c s h = finish-Flags b c.finish_reason (note_usage c s) (unfold note_usage in h)

emit-running :
    (o : Option Text) (s : Stream)
    → Flags true s
    → ((emit o s).0 ≡ elim o [ none ↦ [] | some t ↦ content_block_delta t ∷ [] ])
      × Flags true (emit o s).1
unfolding emit start_events
emit-running none s h = (refl, h)
emit-running (some t) s h = (rw (h.0, h.1) refl, (refl, refl))

-- Once the stream has started, only contents are sent.
take_chunks-running :
    (cs : List Chunk) (s : Stream)
    → Flags true s
    → ((take_chunks cs s).0 ≡ map content_block_delta (contents cs))
      × Flags true (take_chunks cs s).1
unfolding take_chunks take_chunk contents
take_chunks-running [] s h = (refl, h)
take_chunks-running (c ∷ cs) s h =
    let s1 = note_finish c.finish_reason (note_usage c s) in
    let step = emit-running c.content s1 (note-Flags true c s h) in
    let rest = take_chunks-running cs (emit c.content s1).1 step.1 in
    (rw (step.0, rest.0) (joined c.content cs), rest.1)
  where
    joined :
        (o : Option Text) (cs : List Chunk)
        → elim o [ none ↦ [] | some t ↦ content_block_delta t ∷ [] ]
            ++ map content_block_delta (contents cs)
          ≡ map content_block_delta (elim o [ none ↦ contents cs | some t ↦ t ∷ contents cs ])
    joined none cs = refl
    joined (some t) cs = refl

-- What a stream that has not started sends for some objects: nothing, or the start and the contents.
Opens : List Text → List Event × Stream → Type 0
Opens texts r =
    ((texts ≡ []) × (r.0 ≡ []) × Flags false r.1)
    ⊎ ((p : ℕ) × (r.0 ≡ message_start p ∷ content_block_start ∷ map content_block_delta texts)
        × Flags true r.1)

emit-fresh :
    (t : Text) (s : Stream)
    → Flags false s
    → (emit (some t) s).0
      ≡ message_start s.prompt_tokens ∷ content_block_start ∷ content_block_delta t ∷ []
unfolding emit start_events
emit-fresh t s h = rw (h.0, h.1) refl

emit-Flags : (t : Text) (s : Stream) → Flags true (emit (some t) s).1
unfolding emit
emit-Flags t s = (refl, refl)

take_chunks-fresh :
    (cs : List Chunk) (s : Stream) → Flags false s → Opens (contents cs) (take_chunks cs s)
unfolding take_chunks take_chunk contents Opens
take_chunks-fresh [] s h = inl (refl, refl, h)
take_chunks-fresh (c ∷ cs) s h =
    let s1 = note_finish c.finish_reason (note_usage c s) in
    let h1 = note-Flags false c s h in
    elim (Option-cases c.content) [
      | inl silent ↦ rw silent (unfold emit in take_chunks-fresh cs s1 h1)
      | inr (t, says) ↦
          let rest = take_chunks-running cs (emit (some t) s1).1 (emit-Flags t s1) in
          rw says (inr (s1.prompt_tokens, rw (emit-fresh t s1 h1, rest.0) refl, rest.1))
    ]

finish-fresh :
    (s : Stream)
    → Flags false s
    → finish s
      ≡ message_start s.prompt_tokens
        ∷ content_block_start
        ∷ content_block_stop
        ∷ message_delta s.stop_reason s.completion_tokens
        ∷ message_stop
        ∷ []
unfolding finish start_events
finish-fresh s h = rw (h.0, h.1) refl

finish-running :
    (s : Stream)
    → Flags true s
    → finish s
      ≡ content_block_stop ∷ message_delta s.stop_reason s.completion_tokens ∷ message_stop ∷ []
unfolding finish start_events
finish-running s h = rw (h.0, h.1) refl

-- The stream of some objects and its end.
pub chunks-Shape :
    (cs : List Chunk) (s : Stream)
    → Flags false s
    → Shape (contents cs) ((take_chunks cs s).0 ++ finish (take_chunks cs s).1)
unfolding Opens
chunks-Shape cs s h = closed (contents cs) (take_chunks cs s) (take_chunks-fresh cs s h)
  where
    closed :
        (texts : List Text) (r : List Event × Stream)
        → Opens texts r
        → Shape texts (r.0 ++ finish r.1)
    closed texts (events, t) (inl (e, none_sent, f)) = (
      t.prompt_tokens,
      t.stop_reason,
      t.completion_tokens,
      rw (e, none_sent, finish-fresh t f) refl,
    )
    closed texts (events, t) (inr (p, sent, f)) =
        (p, t.stop_reason, t.completion_tokens, rw (sent, finish-running t f) refl)

-- Sequences of objects and of parts.
pair : {A B : Type 0} {a a' : A} {b b' : B} → a ≡ a' → b ≡ b' → ◌≡◌ {A = A × B} (a, b) (a', b')
pair e f = cc

pub take_chunks-append :
    (xs ys : List Chunk) (s : Stream)
    → take_chunks (xs ++ ys) s ≡ (
      (take_chunks xs s).0 ++ (take_chunks ys (take_chunks xs s).1).0,
      (take_chunks ys (take_chunks xs s).1).1,
    )
unfolding take_chunks
take_chunks-append [] ys s = refl
take_chunks-append (x ∷ xs) ys s =
    let s' = (take_chunk x s).1 in
    rw (take_chunks-append xs ys s')
      (pair (sym (append_assoc (take_chunk x s).0 (take_chunks xs s').0 _)) refl)

-- The buffer plays no part in what the objects do.
abbrev pub holding : Text → Stream → Stream
holding b s = record s { buffer = b }

emit-holding :
    (o : Option Text) (b : Text) (s : Stream)
    → emit o (holding b s) ≡ ((emit o s).0, holding b (emit o s).1)
unfolding emit start_events
emit-holding none b s = refl
emit-holding (some t) b s = refl

finish-holding :
    (o : Option String) (b : Text) (s : Stream)
    → note_finish o (holding b s) ≡ holding b (note_finish o s)
unfolding note_finish
finish-holding none b s = refl
finish-holding (some r) b s = refl

pub take_chunks-holding :
    (cs : List Chunk) (b : Text) (s : Stream)
    → take_chunks cs (holding b s) ≡ ((take_chunks cs s).0, holding b (take_chunks cs s).1)
unfolding take_chunks take_chunk note_usage
take_chunks-holding [] b s = refl
take_chunks-holding (c ∷ cs) b s =
    let s1 = note_finish c.finish_reason (note_usage c s) in
    let noted : note_finish c.finish_reason (holding b (note_usage c s)) ≡ holding b s1 =
      finish-holding c.finish_reason b (note_usage c s) in
    rw (noted, emit-holding c.content b s1, take_chunks-holding cs b (emit c.content s1).1) refl
