-- ===== src/ChatStream/Split.antt =====
-- A text that comes in pieces is split as the whole text is.
use llmxy.Prelude.{
  ℕ, List, [], ◌∷◌, ◌++◌, true, false, ◌≡◌, refl, sym, ap, ◌∙◌, arith, Bool-cases, inl, inr,
}
use llmxy.ChatStream.{Text, turned, ends_part, without_last, split}

pub append_nil : {A : Type 0} (xs : List A) → xs ++ [] ≡ xs
append_nil [] = refl
append_nil (x ∷ xs) = ap (λ r. x ∷ r) (append_nil xs)

pub append_assoc : {A : Type 0} (xs ys zs : List A) → (xs ++ ys) ++ zs ≡ xs ++ (ys ++ zs)
append_assoc [] ys zs = refl
append_assoc (x ∷ xs) ys zs = ap (λ r. x ∷ r) (append_assoc xs ys zs)

turned_acc : (xs acc : Text) → turned xs acc ≡ turned xs [] ++ acc
unfolding turned
turned_acc [] acc = refl
turned_acc (x ∷ xs) acc =
    turned_acc xs (x ∷ acc)
    ∙ sym (append_assoc (turned xs []) (x ∷ []) acc)
    ∙ ap (λ r. r ++ acc) (sym (turned_acc xs (x ∷ [])))

-- The two ways on from a code point.
split_end :
    (c : ℕ) (part cs : Text)
    → ends_part c part ≡ true
    → split part (c ∷ cs) ≡ (turned (without_last part) [] ∷ (split [] cs).0, (split [] cs).1)
unfolding split
split_end c part cs h = ground (arith, h)

split_go :
    (c : ℕ) (part cs : Text) → ends_part c part ≡ false → split part (c ∷ cs) ≡ split (c ∷ part) cs
unfolding split
split_go c part cs h = ground (arith, h)

pub split-append :
    (part xs ys : Text)
    → split part (xs ++ ys)
      ≡ ((split part xs).0 ++ (split (split part xs).1 ys).0, (split (split part xs).1 ys).1)
split-append part [] ys = unfold split in refl
split-append part (x ∷ xs) ys = elim (Bool-cases (ends_part x part)) [
  | inl end ↦
      rw (split_end x part (xs ++ ys) end, split_end x part xs end, split-append [] xs ys) refl
  | inr inside ↦
      split_go x part (xs ++ ys) inside
      ∙ split-append (x ∷ part) xs ys
      ∙ rw (split_go x part xs inside) refl
]

-- A part that holds no separator.
abbrev pub IsOnePart : Text → Type 0
IsOnePart part = split [] (turned part []) ≡ ([], part)

IsOnePart-cons :
    (c : ℕ) (part : Text) → IsOnePart part → ends_part c part ≡ false → IsOnePart (c ∷ part)
unfolding turned
IsOnePart-cons c part h inside =
    ap (split []) (turned_acc part (c ∷ []))
    ∙ split-append [] (turned part []) (c ∷ [])
    ∙ rw (h, split_go c part [] inside) (unfold split in refl)

pub split-IsOnePart : (part xs : Text) → IsOnePart part → IsOnePart (split part xs).1
split-IsOnePart part [] h = unfold split in h
split-IsOnePart part (x ∷ xs) h = elim (Bool-cases (ends_part x part)) [
  | inl end ↦ rw (split_end x part xs end) (split-IsOnePart [] xs (unfold split turned in refl))
  | inr inside ↦
      rw (split_go x part xs inside)
        (split-IsOnePart (x ∷ part) xs (IsOnePart-cons x part h inside))
]

-- The buffer is split again with what comes next, and gives what reading on gives.
pub split_resume :
    (part ys : Text) → IsOnePart part → split [] (turned part [] ++ ys) ≡ split part ys
split_resume part ys h = split-append [] (turned part []) ys ∙ rw h refl
