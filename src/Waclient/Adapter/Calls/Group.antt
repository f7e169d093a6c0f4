-- ===== src/Waclient/Adapter/Calls/Group.antt =====
-- internal/waclient/whatsmeow_adapter.go: the calls on groups: `CreateGroup`, `GetGroupInfo`,
-- `UpdateGroupParticipants` and `LeaveGroup`.
use whatsmeow_api.Prelude.{
  ℕ, String, true, false, Option, none, some, List, [], ◌∷◌, map, eqb, ◌==◌, if◌then◌else◌,
}
use whatsmeow_api.Text.{concat, decimal}
use whatsmeow_api.Errors.{Result, ok, err, ◌>>=◌}
use whatsmeow_api.Waclient.{Group, ParticipantChange}
use whatsmeow_api.Waclient.Translate.{translate_group}
use whatsmeow_api.Waclient.Adapter.{
  Whatsmeow, Adapter, Change, change_add, change_remove, call, guarded, given, parsed,
}
use whatsmeow_api.Waclient.Adapter.Calls.{or_unsupported}

unfoldable pub change_of : String → Option Change
change_of action =
    if action == "add"
    then some change_add
    else if action == "remove"
    then some change_remove
    else none

module _ (M : Whatsmeow) where
  -- The loop that parses the participants and stops at the first that does not parse; the quotes
  -- around the value in the error are left out.
  unfoldable pub parsed_all : List String → Result (List M.Jid)
  parsed_all [] = ok []
  parsed_all (jid ∷ jids) =
      parsed M (concat "parse participant_jid " (concat jid ": ")) jid >>= λ p.
      parsed_all jids >>= λ ps. ok (p ∷ ps)

  -- The answer for one participant; whatsmeow's code 0 is success.
  unfoldable pub change_entry : M.Jid × ℕ → ParticipantChange
  change_entry (jid, code) =
      if eqb code 0 then record { jid = M.jid_text jid; is_ok = true; error = "" } else record {
        jid = M.jid_text jid;
        is_ok = false;
        error = concat "error code " (decimal code);
      }

module _ {M : Whatsmeow} where
  abbrev pub in_result {ℓ κ} :
      {V : Type ℓ} {R : Type κ} → (V → R) → Result V × Adapter M → Result R × Adapter M
  in_result f (ok v, a) = (ok (f v), a)
  in_result f (err e, a) = (err e, a)

  unfoldable pub adapter_create_group : String → List String → Adapter M → Result Group × Adapter M
  unfolding parsed_all translate_group
  adapter_create_group name participant_jids = guarded (
      given (parsed_all M participant_jids)
        (λ jids a. in_result translate_group (call "create group: " (M.group_create name jids) a)))

  unfoldable pub adapter_get_group_info : String → Adapter M → Result Group × Adapter M
  unfolding translate_group
  adapter_get_group_info group_jid = guarded (
      given (parsed M "parse group_jid: " group_jid)
        (λ jid a. in_result translate_group (call "get group info: " (M.group_info jid) a)))

  unfoldable pub adapter_update_group_participants :
      String → String → List String → Adapter M → Result (List ParticipantChange) × Adapter M
  unfolding change_of parsed_all change_entry
  adapter_update_group_participants group_jid action participant_jids = guarded (
      given (parsed M "parse group_jid: " group_jid) (λ group.
        given (or_unsupported "unsupported action" (change_of action)) (λ change.
          given (parsed_all M participant_jids) (λ jids a.
            in_result (map (change_entry M))
              (call "update group participants: " (M.group_update group jids change) a)))))

  unfoldable pub adapter_leave_group : String → Adapter M → Result (Unit {0}) × Adapter M
  adapter_leave_group group_jid = guarded (
      given (parsed M "parse group_jid: " group_jid)
        (λ jid. call "leave group: " (M.group_leave jid)))
