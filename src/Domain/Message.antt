-- ===== src/Domain/Message.antt =====
-- The parts of a user's message (crates/homebot-domain/src/chat.rs).
use home_bot.Common.{
  ◌≡◌, refl, ap, ◌↔◌, inl, inr, Option, List, [], ◌∷◌, ◌++◌, map, arith, ℕ, zero, suc, ◌+◌, ◌<◌, ok,
  err, Result, if◌then◌else◌, Bool-cases, ◌==◌, length, Bool, false, true,
}
use home_bot.Domain.Conversation.{
  MessagePart, push_attachments, text, user_message, attachment, notice, ChatMessage,
}
use home_bot.Common.Text.{Text, trim}
use home_bot.Common.Int.{ℤ, to_u32-small}
use home_bot.Domain.Chat.{ChatDomainError, empty_message, message_too_long}

abbrev ordinal : MessagePart → ℕ
ordinal (text id n t) = n
ordinal (attachment id n a) = n
ordinal (notice id n t) = n

abbrev part_id : MessagePart → ℕ
part_id (text id n t) = id
part_id (attachment id n a) = id
part_id (notice id n t) = id

-- The numbers from `n`, `count` of them.
abbrev upto : ℕ → ℕ → List ℕ
upto n zero = []
upto n (suc count) = n ∷ upto (suc n) count

-- The text of the text parts and the attachments, each in the order of the parts.
abbrev texts_of : List MessagePart → List Text
texts_of [] = []
texts_of (text id n t ∷ ps) = t ∷ texts_of ps
texts_of (attachment id n a ∷ ps) = texts_of ps
texts_of (notice id n t ∷ ps) = texts_of ps

abbrev attachments_of : List MessagePart → List ℕ
attachments_of [] = []
attachments_of (text id n t ∷ ps) = attachments_of ps
attachments_of (attachment id n a ∷ ps) = a ∷ attachments_of ps
attachments_of (notice id n t ∷ ps) = attachments_of ps

-- A part is a text.
abbrev is_text : MessagePart → Bool
is_text (text id n t) = true
is_text (attachment id n a) = false
is_text (notice id n t) = false

abbrev pub IsMessageOf : (ℕ → ℕ) → Text → List ℕ → List MessagePart → Type 0
IsMessageOf uuid content ids parts =
    (map ordinal parts ≡ upto 0 (length parts))
    × (map part_id parts ≡ map uuid (upto 0 (length parts)))
    × (texts_of parts ≡ (if length content == 0 then [] else content ∷ []))
    × (attachments_of parts ≡ ids)
    × (map is_text parts ≡ (if length content == 0 then [] else true ∷ []) ++ map (λ id. false) ids)

module _ (uuid : ℕ → ℕ) where
  length-push_attachments :
      (n : ℕ) (ids : List ℕ) → length (push_attachments uuid n ids) ≡ length ids
  unfolding push_attachments
  length-push_attachments n [] = refl
  length-push_attachments n (a ∷ ids) = ap suc (length-push_attachments (suc n) ids)

  ordinals-push_attachments :
      (n : ℕ) (ids : List ℕ)
      → n + length ids < 4294967296
      → map ordinal (push_attachments uuid n ids) ≡ upto n (length ids)
  unfolding push_attachments
  ordinals-push_attachments n [] h = refl
  ordinals-push_attachments n (a ∷ ids) h =
      rw (
        to_u32-small n (omega (arith, h)),
        ordinals-push_attachments (suc n) ids (omega (arith, h)),
      )

  ids-push_attachments :
      (n : ℕ) (ids : List ℕ)
      → map part_id (push_attachments uuid n ids) ≡ map uuid (upto n (length ids))
  unfolding push_attachments
  ids-push_attachments n [] = refl
  ids-push_attachments n (a ∷ ids) = ap (λ l. uuid n ∷ l) (ids-push_attachments (suc n) ids)

  texts-push_attachments : (n : ℕ) (ids : List ℕ) → texts_of (push_attachments uuid n ids) ≡ []
  unfolding push_attachments
  texts-push_attachments n [] = refl
  texts-push_attachments n (a ∷ ids) = texts-push_attachments (suc n) ids

  attachments-push_attachments :
      (n : ℕ) (ids : List ℕ) → attachments_of (push_attachments uuid n ids) ≡ ids
  unfolding push_attachments
  attachments-push_attachments n [] = refl
  attachments-push_attachments n (a ∷ ids) =
      ap (λ l. a ∷ l) (attachments-push_attachments (suc n) ids)

  kinds-push_attachments :
      (n : ℕ) (ids : List ℕ) → map is_text (push_attachments uuid n ids) ≡ map (λ id. false) ids
  unfolding push_attachments
  kinds-push_attachments n [] = refl
  kinds-push_attachments n (a ∷ ids) = ap (λ l. false ∷ l) (kinds-push_attachments (suc n) ids)

  IsMessageOf-parts :
      (content : Text) (ids : List ℕ)
      → length ids < 4294967295
      → let texts = if length content == 0 then [] else text (uuid 0) 0 content ∷ [] in
        IsMessageOf uuid content ids (texts ++ push_attachments uuid (length texts) ids)
  IsMessageOf-parts content ids few = elim (Bool-cases (length content == 0)) [
    | inl blank ↦
        rw (blank, length-push_attachments 0 ids)
          (
            ordinals-push_attachments 0 ids (omega (arith, few)),
            ids-push_attachments 0 ids,
            texts-push_attachments 0 ids,
            attachments-push_attachments 0 ids,
            kinds-push_attachments 0 ids,
          )
    | inr filled ↦
        rw (filled, length-push_attachments 1 ids)
          (
            ap (λ l. 0 ∷ l) (ordinals-push_attachments 1 ids (omega (arith, few))),
            ap (λ l. uuid 0 ∷ l) (ids-push_attachments 1 ids),
            ap (λ l. content ∷ l) (texts-push_attachments 1 ids),
            attachments-push_attachments 1 ids,
            ap (λ l. true ∷ l) (kinds-push_attachments 1 ids),
          )
  ]

  -- A user's message that is accepted has the trimmed text, unless it is blank, as its first part and
  -- then the attachments in the order given, and no other part; the ordinals of the parts are 0, 1, 2, … and each part
  -- has an identifier of its own draw. The attachments are less than 2 ^ 32 - 1.
  pub user_message-parts :
      {Json : Type 0} (chat_id : ℕ) (content : Text) (ids : List ℕ) (reply : Option ℕ)
      (mentioned : List ℕ) (now_ms : ℤ) {m : ChatMessage Json}
      → length ids < 4294967295
      → user_message uuid chat_id content ids reply mentioned now_ms ≡ ok m
      → IsMessageOf uuid (trim content) ids m.parts
  unfolding user_message
  user_message-parts chat_id content ids reply mentioned now_ms {m} few h =
      let texts = if length (trim content) == 0 then [] else text (uuid 0) 0 (trim content) ∷ [] in
      let eq : m.parts ≡ texts ++ push_attachments uuid (length texts) ids = ground arith in
      rw eq (IsMessageOf-parts (trim content) ids few)

  -- A message without text and attachments, or with a text of more than 100,000 characters once
  -- trimmed, is refused, the first with `EmptyMessage` and the second with `MessageTooLong`.
  pub user_message-refused :
      {Json : Type 0} (chat_id : ℕ) (content : Text) (ids : List ℕ) (reply : Option ℕ)
      (mentioned : List ℕ) (now_ms : ℤ)
      → let m : Result ChatDomainError (ChatMessage Json) =
          user_message uuid chat_id content ids reply mentioned now_ms in
        ((m ≡ err empty_message) ↔ (length (trim content) + length ids ≡ 0))
        × ((m ≡ err message_too_long) ↔ (100000 < length (trim content)))
  unfolding user_message
  user_message-refused chat_id content ids reply mentioned now_ms = ground arith
