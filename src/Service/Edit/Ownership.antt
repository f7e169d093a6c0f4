-- ===== src/Service/Edit/Ownership.antt =====
-- Only our own, undeleted messages are edited or deleted.
use whatsmeow_api.Prelude.{
  ◌≡◌, ◌≢◌, refl, ap, eq_iff, String, true, false, Option, none, some, arith, Bool-cases, inl, inr,
  ltb, len, ◌==◌, ◌⊎◌,
}
use whatsmeow_api.Text.{is_blank}
use whatsmeow_api.Errors.{Result, ok, err}
use whatsmeow_api.Store.{Message}
use whatsmeow_api.Store.Bundle.{Bundle}
use whatsmeow_api.Waclient.Client.{WaClient}
use whatsmeow_api.Service.World.{MediaDisk, World, max_text_len}
use whatsmeow_api.Service.Edit.{
  owns_message, is_deleted, is_jid, edit_found, edit_message, delete_found, delete_message,
}

module _ {B : Bundle} {W : WaClient} {D : MediaDisk} (w : World B W D) (id : String) where
  -- The stored message of the id is ours and is not deleted.
  pub record IsOurs : Type 0 where
    pub message : Message
    pub found : B.messages_get id w.store ≡ ok message
    pub ours : (W.status w.net).jid ≡ some message.sender_jid
    pub live : message.deleted_at ≡ none

  abbrev Allowed : Result Message → Type 0
  Allowed r = (m : Message) × (r ≡ ok m) × (owns_message w m ≡ true) × (is_deleted m ≡ false)

  edit_found_cases : (t : String) (r : Result Message) → ((edit_found id t w r).1 ≡ w) ⊎ Allowed r
  unfolding edit_found
  edit_found_cases t (err e) = inl refl
  edit_found_cases t (ok m) = elim (Bool-cases (owns_message w m)) [
    | inr theirs ↦ inl (rw theirs refl)
    | inl ours ↦ elim (Bool-cases (is_deleted m)) [
      | inl gone ↦ inl (rw (ours, gone) refl)
      | inr live ↦ inr (m, refl, ours, live)
    ]
  ]

  delete_found_cases : (r : Result Message) → ((delete_found id w r).1 ≡ w) ⊎ Allowed r
  unfolding delete_found
  delete_found_cases (err e) = inl refl
  delete_found_cases (ok m) = elim (Bool-cases (owns_message w m)) [
    | inr theirs ↦ inl (rw theirs refl)
    | inl ours ↦ elim (Bool-cases (is_deleted m)) [
      | inl gone ↦ inl (rw (ours, gone) refl)
      | inr live ↦ inr (m, refl, ours, live)
    ]
  ]

  jid_of : (j : Option String) (s : String) → is_jid j s ≡ true → j ≡ some s
  jid_of none s h = absurd (cc)
  jid_of (some j) s h = ap some ((eq_iff j s).0 h)

  Allowed→IsOurs : Allowed (B.messages_get id w.store) → IsOurs
  unfolding owns_message
  Allowed→IsOurs (m, found, owned, live) = record {
    message = m;
    found = found;
    ours = jid_of (W.status w.net).jid m.sender_jid owned;
    live = ground arith;
  }

  -- Whenever `EditMessage` changes anything, in the store or on the network, the message of the id
  -- is stored, was sent under the JID that is logged in now, and is not deleted.
  pub edit_message-IsOurs : (t : String) → (edit_message id t w).1 ≢ w → IsOurs
  unfolding edit_message
  edit_message-IsOurs t changed = elim (Bool-cases (is_blank id)) [
    | inl blank ↦ absurd (changed (rw blank refl))
    | inr named ↦ elim (Bool-cases (t == "")) [
      | inl no_text ↦ absurd (changed (rw (named, no_text) refl))
      | inr text ↦ elim (Bool-cases (ltb max_text_len (len t))) [
        | inl long ↦ absurd (changed (rw (named, text, long) refl))
        | inr short ↦ elim (edit_found_cases t (B.messages_get id w.store)) [
          | inl same ↦ absurd (changed (rw (named, text, short) same))
          | inr allowed ↦ Allowed→IsOurs allowed
        ]
      ]
    ]
  ]

  -- Whenever `DeleteMessage` changes anything, in the store or on the network, the message of the
  -- id is stored, was sent under the JID that is logged in now, and is not deleted.
  pub delete_message-IsOurs : (delete_message id w).1 ≢ w → IsOurs
  unfolding delete_message
  delete_message-IsOurs changed = elim (Bool-cases (is_blank id)) [
    | inl blank ↦ absurd (changed (rw blank refl))
    | inr named ↦ elim (delete_found_cases (B.messages_get id w.store)) [
      | inl same ↦ absurd (changed (rw named same))
      | inr allowed ↦ Allowed→IsOurs allowed
    ]
  ]
