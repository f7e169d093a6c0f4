-- ===== src/Service/Send/Guards.antt =====
-- The input checks of `SendText` and `SendMedia`.
use whatsmeow_api.Prelude.{
  ◌≤◌, ◌≡◌, ◌≢◌, refl, String, Bool, true, false, Option, none, some, arith, Bool-cases, inl, inr,
  ltb, le→ltb, len, ◌==◌, ◌⊎◌, ◌↔◌, [],
}
use whatsmeow_api.Text.{is_blank}
use whatsmeow_api.Errors.{err, Error, invalid_request}
use whatsmeow_api.Store.Bundle.{Bundle}
use whatsmeow_api.Waclient.Client.{WaClient}
use whatsmeow_api.Service.World.{MediaDisk, World, max_text_len}
use whatsmeow_api.Service.Send.{
  SendMediaRequest, persist_text, send_text, media_problem, send_media,
}

-- What the API documents of a text message: a chat, and 1 to 4096 bytes of text.
pub record IsSendable (chat_jid text : String) : Type 0 where
  pub chat : is_blank chat_jid ≡ false
  pub some_text : (text == "") ≡ false
  pub short : len text ≤ 4096

module _ {B : Bundle} {W : WaClient} {D : MediaDisk} (w : World B W D)
    (chat_jid text reply_to : String) where
  -- A text for a chat that is not blank, of 1 to 4096 bytes, is handed to WhatsApp once, and what
  -- `SendText` then returns and stores is what follows from the answer of WhatsApp.
  pub send_text_sendable :
      IsSendable chat_jid text
      → send_text chat_jid text reply_to w ≡ (
          let (sent, net) = W.send_text chat_jid text reply_to w.net in
          persist_text chat_jid text reply_to (record w { net = net }) sent)
  unfolding send_text
  send_text_sendable s = rw (s.chat, s.some_text, le→ltb max_text_len (len text) s.short) refl

  -- A text whose chat is blank, that is empty or that has more than 4096 bytes is refused by
  -- `SendText` as invalid, and leaves everything as it was.
  pub send_text_refused :
      ¬ IsSendable chat_jid text
      → (why : String) × (send_text chat_jid text reply_to w ≡ (err (invalid_request why), w))
  unfolding send_text
  send_text_refused bad = elim (Bool-cases (is_blank chat_jid)) [
    | inl blank ↦ ("chat_jid is required", rw blank refl)
    | inr named ↦ elim (Bool-cases (text == "")) [
      | inl no_text ↦ ("text is required", rw (named, no_text) refl)
      | inr some_text ↦ elim (Bool-cases (ltb max_text_len (len text))) [
        | inl long ↦ ("text exceeds 4096 bytes", rw (named, some_text, long) refl)
        | inr short ↦
            absurd (bad (record { chat = named; some_text = some_text; short = ground arith }))
      ]
    ]
  ]

-- What the API documents of a media message.
pub record IsSendableMedia (req : SendMediaRequest) : Type 0 where
  pub chat : is_blank req.chat_jid ≡ false
  pub some_body : req.body ≢ []
  pub mime : is_blank req.mime ≡ false
  pub kind : ((req.kind == "image") ≡ true) ⊎ ((req.kind == "document") ≡ true)
  pub filename : (req.kind == "document") ≡ true → is_blank req.filename ≡ false
  pub caption : len req.caption ≤ 4096

media_problem_sound : (req : SendMediaRequest) → media_problem req ≡ none → IsSendableMedia req
unfolding media_problem
media_problem_sound req h = record {
  chat = ground arith;
  some_body = λ e. ground arith;
  mime = ground arith;
  kind = ground arith;
  filename = λ d. ground arith;
  caption = ground arith;
}

media_problem_complete : (req : SendMediaRequest) → IsSendableMedia req → media_problem req ≡ none
unfolding media_problem
media_problem_complete req s = ground arith

-- The checks of `SendMedia` let exactly the requests pass that the API documents: a chat, a body,
-- a MIME type, the kind image or document, a file name for a document, and a caption of at most
-- 4096 bytes.
pub media_problem_iff : (req : SendMediaRequest) → (media_problem req ≡ none) ↔ IsSendableMedia req
media_problem_iff req = (media_problem_sound req, media_problem_complete req)

-- No problem, or one that the caller is told of as invalid.
abbrev Reported : Option Error → Type 0
Reported o = (o ≡ none) ⊎ ((why : String) × (o ≡ some (invalid_request why)))

abbrev is_reported : Option Error → Bool
is_reported none = true
is_reported (some (invalid_request why)) = true
is_reported (some _) = false

is_reported_lem : (o : Option Error) → is_reported o ≡ true → Reported o
is_reported_lem none h = inl refl
is_reported_lem (some (invalid_request why)) h = inr (why, refl)
is_reported_lem (some _) h = absurd (cc)

media_problem-Reported : (req : SendMediaRequest) → Reported (media_problem req)
unfolding media_problem
media_problem-Reported req = is_reported_lem (media_problem req) (ground arith)

module _ {B : Bundle} {W : WaClient} {D : MediaDisk} (w : World B W D)
    (req : SendMediaRequest) where
  -- A media request that is not as the API documents is refused by `SendMedia` as invalid, and
  -- leaves everything as it was: nothing is uploaded or written to the disk.
  pub send_media_refused :
      ¬ IsSendableMedia req → (why : String) × (send_media req w ≡ (err (invalid_request why), w))
  unfolding send_media
  send_media_refused bad = elim (media_problem-Reported req) [
    | inl fine ↦ absurd (bad (media_problem_sound req fine))
    | inr (why, e) ↦ (why, rw (e, send_media) refl)
  ]
