-- ===== src/Waclient/Adapter/Calls/Unsent.antt =====
-- internal/waclient/whatsmeow_adapter.go: when a call of the adapter does not reach WhatsApp.
use whatsmeow_api.Prelude.{
  ℕ, ◌≡◌, refl, String, Bool, true, false, ◌&&◌, Option, none, some, List, [], ◌∷◌, arith, ◌⊎◌, inl,
  inr, Bool-cases, ap, ◌∙◌,
}
use whatsmeow_api.Text.{concat}
use whatsmeow_api.Time.{Time}
use whatsmeow_api.Errors.{Result, ok, err, Error, not_connected, is_ok, wrap, ◌>>=◌}
use whatsmeow_api.Waclient.{Sent}
use whatsmeow_api.Waclient.Adapter.{
  Whatsmeow, Adapter, is_ready, parsed, wrapped, guarded, given, own_jid,
}
use whatsmeow_api.Waclient.Adapter.Calls.{
  adapter_send_text, adapter_send_media, adapter_send_edit, adapter_send_revoke,
  adapter_send_reaction, adapter_mark_read, adapter_send_chat_presence, to_chat, forget,
}
use whatsmeow_api.Waclient.Adapter.Calls.Group.{
  parsed_all, adapter_create_group, adapter_get_group_info, adapter_update_group_participants,
  adapter_leave_group,
}

-- A call with its arguments, those of `SendText` and so on.
pub data Call : Type 0 where
  send_text : String → String → String → Call
  send_media : String → String → String → String → String → List ℕ → Call
  send_edit : String → String → String → Call
  send_revoke : String → String → Call
  send_reaction : String → String → String → Call
  mark_read : String → String → String → Time → Call
  send_chat_presence : String → String → Call
  create_group : String → List String → Call
  get_group_info : String → Call
  update_group_participants : String → String → List String → Call
  leave_group : String → Call

-- The JIDs among a call's arguments.
abbrev pub jids_of : Call → List String
jids_of (send_text chat _ _) = chat ∷ []
jids_of (send_media chat _ _ _ _ _) = chat ∷ []
jids_of (send_edit chat _ _) = chat ∷ []
jids_of (send_revoke chat _) = chat ∷ []
jids_of (send_reaction chat _ _) = chat ∷ []
jids_of (mark_read chat sender _ _) = chat ∷ sender ∷ []
jids_of (send_chat_presence chat _) = chat ∷ []
jids_of (create_group _ members) = members
jids_of (get_group_info group) = group ∷ []
jids_of (update_group_participants group _ members) = group ∷ members
jids_of (leave_group group) = group ∷ []

-- A call's error, if any, and the adapter after it.
unfoldable pub error_of {ℓ} : {R : Type ℓ} {S : Type 0} → Result R × S → Option Error × S
error_of (ok _, s) = (none, s)
error_of (err e, s) = (some e, s)

abbrev pub all_parse : (M : Whatsmeow) → List String → Bool
all_parse M [] = true
all_parse M (jid ∷ jids) = is_ok (M.parse_jid jid) && all_parse M jids

parsed_all-is_ok :
    (M : Whatsmeow) (jids : List String) → is_ok (parsed_all M jids) ≡ all_parse M jids
unfolding parsed_all
parsed_all-is_ok M [] = refl
parsed_all-is_ok M (jid ∷ jids) =
    both (concat "parse participant_jid " (concat jid ": ")) (M.parse_jid jid) (parsed_all M jids)
    ∙ ap (λ b. is_ok (M.parse_jid jid) && b) (parsed_all-is_ok M jids)
  where
    both :
        (what : String) (r : Result M.Jid) (rs : Result (List M.Jid))
        → is_ok (wrapped what r >>= λ p. rs >>= λ ps. ok (p ∷ ps)) ≡ (is_ok r && is_ok rs)
    both what (ok p) (ok ps) = refl
    both what (ok p) (err e) = refl
    both what (err e) rs = refl

module _ {M : Whatsmeow} where
  unfoldable pub run_call : Call → Adapter M → Option Error × Adapter M
  run_call (send_text chat text reply_to) a = error_of (adapter_send_text chat text reply_to a)
  run_call (send_media chat kind caption filename mime body) a =
      error_of (adapter_send_media chat kind caption filename mime body a)
  run_call (send_edit chat id text) a = error_of (adapter_send_edit chat id text a)
  run_call (send_revoke chat id) a = error_of (adapter_send_revoke chat id a)
  run_call (send_reaction chat id emoji) a = error_of (adapter_send_reaction chat id emoji a)
  run_call (mark_read chat sender id timestamp) a =
      error_of (adapter_mark_read chat sender id timestamp a)
  run_call (send_chat_presence chat state) a = error_of (adapter_send_chat_presence chat state a)
  run_call (create_group name members) a = error_of (adapter_create_group name members a)
  run_call (get_group_info group) a = error_of (adapter_get_group_info group a)
  run_call (update_group_participants group action members) a =
      error_of (adapter_update_group_participants group action members a)
  run_call (leave_group group) a = error_of (adapter_leave_group group a)

  -- Without a client that is connected and logged in, every call returns `ErrNotConnected`, and
  -- neither the adapter nor WhatsApp is changed.
  pub run_call-not_connected :
      (c : Call) (a : Adapter M) → is_ready a ≡ false → run_call c a ≡ (some not_connected, a)
  unfolding run_call adapter_send_text adapter_send_media adapter_send_edit adapter_send_revoke
      adapter_send_reaction adapter_mark_read adapter_send_chat_presence adapter_create_group
      adapter_get_group_info adapter_update_group_participants adapter_leave_group guarded to_chat
      error_of
  run_call-not_connected (send_text _ _ _) a h = rw h refl
  run_call-not_connected (send_media _ _ _ _ _ _) a h = rw h refl
  run_call-not_connected (send_edit _ _ _) a h = rw h refl
  run_call-not_connected (send_revoke _ _) a h = rw h refl
  run_call-not_connected (send_reaction _ _ _) a h = rw h refl
  run_call-not_connected (mark_read _ _ _ _) a h = rw h refl
  run_call-not_connected (send_chat_presence _ _) a h = rw h refl
  run_call-not_connected (create_group _ _) a h = rw h refl
  run_call-not_connected (get_group_info _) a h = rw h refl
  run_call-not_connected (update_group_participants _ _ _) a h = rw h refl
  run_call-not_connected (leave_group _) a h = rw h refl

  -- An error, with everything as it was.
  abbrev pub IsRefused : Adapter M → Option Error × Adapter M → Type 0
  IsRefused a r = (e : Error) × (r ≡ (some e, a))

  module _ {ℓ} {R : Type ℓ} (a : Adapter M) where
    guarded-IsRefused :
        (next : Adapter M → Result R × Adapter M)
        → IsRefused a (error_of (next a))
        → IsRefused a (error_of (guarded next a))
    unfolding guarded error_of
    guarded-IsRefused next (e, same) = elim (Bool-cases (is_ready a)) [
      | inl ready ↦ (e, rw ready same)
      | inr offline ↦ (not_connected, rw offline refl)
    ]

    given-IsRefused {κ} :
        {V : Type κ} (r : Result V) (next : V → Adapter M → Result R × Adapter M)
        → ((v : V) → r ≡ ok v → IsRefused a (error_of (next v a)))
        → IsRefused a (error_of (given r next a))
    unfolding given error_of
    given-IsRefused (ok v) next h = h v refl
    given-IsRefused (err e) next h = (e, refl)

    unparsed-IsRefused :
        (what jid : String) (next : M.Jid → Adapter M → Result R × Adapter M)
        → (is_ok (M.parse_jid jid) ≡ false) ⊎ ((v : M.Jid) → IsRefused a (error_of (next v a)))
        → IsRefused a (error_of (given (parsed M what jid) next a))
    unfolding given error_of
    unparsed-IsRefused what jid next h = at (M.parse_jid jid) h
      where
        at :
            (r : Result M.Jid)
            → (is_ok r ≡ false) ⊎ ((v : M.Jid) → IsRefused a (error_of (next v a)))
            → IsRefused a (error_of (given (wrapped what r) next a))
        at (ok v) (inl bad) = absurd (cc)
        at (ok v) (inr h) = h v
        at (err e) _ = (wrap what e, refl)

    members-IsRefused :
        (jids : List String) (next : List M.Jid → Adapter M → Result R × Adapter M)
        → all_parse M jids ≡ false
        → IsRefused a (error_of (given (parsed_all M jids) next a))
    members-IsRefused jids next bad =
        given-IsRefused (parsed_all M jids) next
          (λ v e. absurd (cc (parsed_all-is_ok M jids, bad, e)))

  to_chat-IsRefused :
      (a : Adapter M) (chat_jid : String)
      (next : M.Jid → M.Jid → Adapter M → Result Sent × Adapter M)
      → is_ok (M.parse_jid chat_jid) ≡ false
      → IsRefused a (error_of (to_chat chat_jid next a))
  unfolding to_chat
  to_chat-IsRefused a chat_jid next bad =
      guarded-IsRefused a
        (λ b.
          given (own_jid b)
            (λ own. given (parsed M "parse chat_jid: " chat_jid) (λ to. next own to)) b)
        (given-IsRefused a (own_jid a)
          (λ own. given (parsed M "parse chat_jid: " chat_jid) (λ to. next own to))
          (λ own _. unparsed-IsRefused a "parse chat_jid: " chat_jid (λ to. next own to) (inl bad)))

  forget-error : (r : Result Sent × Adapter M) → error_of (forget r) ≡ error_of r
  unfolding error_of
  forget-error (ok _, a) = refl
  forget-error (err e, a) = refl

  -- A call with a JID that does not parse, be it the chat, the sender, the group or any of the
  -- members, returns an error, and neither the adapter nor WhatsApp is changed.
  pub run_call-unparsed :
      (c : Call) (a : Adapter M)
      → all_parse M (jids_of c) ≡ false
      → (e : Error) × (run_call c a ≡ (some e, a))
  unfolding run_call adapter_send_text adapter_send_media adapter_send_edit adapter_send_revoke
      adapter_send_reaction adapter_mark_read adapter_send_chat_presence adapter_create_group
      adapter_get_group_info adapter_update_group_participants adapter_leave_group
  run_call-unparsed (send_text chat text reply_to) a bad = to_chat-IsRefused a chat _ (ground arith)
  run_call-unparsed (send_media chat kind caption filename mime body) a bad =
      to_chat-IsRefused a chat _ (ground arith)
  run_call-unparsed (send_edit chat id text) a bad = to_chat-IsRefused a chat _ (ground arith)
  run_call-unparsed (send_revoke chat id) a bad = to_chat-IsRefused a chat _ (ground arith)
  run_call-unparsed (send_reaction chat id emoji) a bad =
      let (e, same) = to_chat-IsRefused a chat _ (ground arith) in (e, forget-error _ ∙ same)
  run_call-unparsed (mark_read chat sender id timestamp) a bad = guarded-IsRefused a _ (
      unparsed-IsRefused a "parse chat_jid: " chat _ (elim (Bool-cases (is_ok (M.parse_jid chat))) [
        | inl fine ↦
            inr (λ v. unparsed-IsRefused a "parse sender_jid: " sender _ (inl (ground arith)))
        | inr bad ↦ inl bad
      ]))
  run_call-unparsed (send_chat_presence chat state) a bad =
      guarded-IsRefused a _ (unparsed-IsRefused a "parse chat_jid: " chat _ (inl (ground arith)))
  run_call-unparsed (create_group name members) a bad =
      guarded-IsRefused a _ (members-IsRefused a members _ bad)
  run_call-unparsed (get_group_info group) a bad =
      guarded-IsRefused a _ (unparsed-IsRefused a "parse group_jid: " group _ (inl (ground arith)))
  run_call-unparsed (update_group_participants group action members) a bad = guarded-IsRefused a _ (
      unparsed-IsRefused a "parse group_jid: " group _
        (elim (Bool-cases (is_ok (M.parse_jid group))) [
          | inl fine ↦ inr (λ v.
              given-IsRefused a _ _ (λ change _. members-IsRefused a members _ (ground arith)))
          | inr bad ↦ inl bad
        ]))
  run_call-unparsed (leave_group group) a bad =
      guarded-IsRefused a _ (unparsed-IsRefused a "parse group_jid: " group _ (inl (ground arith)))
