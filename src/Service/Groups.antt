-- ===== src/Service/Groups.antt =====
-- internal/service/service.go: groups and the connection.
use whatsmeow_api.Prelude.{
  ℕ, String, false, not, ◌&&◌, List, count, length, ltb, eqb, ◌==◌, if◌then◌else◌,
}
use whatsmeow_api.Text.{is_blank, trim_space}
use whatsmeow_api.Errors.{Result, ok, err, invalid_request, failure}
use whatsmeow_api.Store.Bundle.{Bundle}
use whatsmeow_api.Waclient.{Status, LoginEvent, Group, GroupMember, ParticipantChange}
use whatsmeow_api.Waclient.Client.{WaClient}
use whatsmeow_api.Waclient.Jid.{is_valid_phone_number}
use whatsmeow_api.Service.World.{MediaDisk, World, attempt}

abbrev pub max_group_name_len : ℕ
max_group_name_len = 25

abbrev pub participants_of : Result Group → Result (List GroupMember)
participants_of (err e) = err e
participants_of (ok g) = ok g.participants

module _ {B : Bundle} {W : WaClient} {D : MediaDisk} where
  unfoldable pub status : World B W D → Status
  status w = W.status w.net

  unfoldable pub login_qr : World B W D → Result (List LoginEvent) × World B W D
  login_qr w = let (r, net) = W.login_qr w.net in (r, record w { net = net })

  unfoldable pub login_phone : String → World B W D → Result (List LoginEvent) × World B W D
  login_phone phone w =
      if is_valid_phone_number phone
      then (let (r, net) = W.login_phone phone w.net in (r, record w { net = net }))
      else (err (failure "invalid phone number"), w)

  unfoldable pub logout : World B W D → Result (Unit {0}) × World B W D
  logout w = let (r, net) = W.logout w.net in (r, record w { net = net })

  unfoldable pub persist_group : World B W D → Result Group → Result Group × World B W D
  persist_group w (err e) = (err e, w)
  persist_group w (ok group) = (
    ok group,
    attempt
        (B.chats_put (record {
          jid = group.jid;
          name = group.name;
          kind = "group";
          last_msg_at = w.clock;
          unread_count = 0;
          archived = false;
        }))
        w,
  )

  unfoldable pub create_group : String → List String → World B W D → Result Group × World B W D
  unfolding persist_group
  create_group name participant_jids w =
      let trimmed = trim_space name in
      if trimmed == ""
      then (err (invalid_request "name is required"), w)
      else if ltb max_group_name_len (count trimmed)
      then (err (invalid_request "name exceeds 25 runes"), w)
      else if eqb (length participant_jids) 0
      then (err (invalid_request "at least one participant is required"), w)
      else let (group, net) = W.create_group trimmed participant_jids w.net in
        persist_group (record w { net = net }) group

  unfoldable pub list_group_members : String → World B W D → Result (List GroupMember) × World B W D
  list_group_members group_jid w =
      if is_blank group_jid
      then (err (invalid_request "group_jid is required"), w)
      else let (group, net) = W.get_group_info group_jid w.net in
        (participants_of group, record w { net = net })

  unfoldable pub update_group_members :
      String → String → List String → World B W D → Result (List ParticipantChange) × World B W D
  update_group_members group_jid action participant_jids w =
      if is_blank group_jid
      then (err (invalid_request "group_jid is required"), w)
      else if not (action == "add") && not (action == "remove")
      then (err (invalid_request "action must be add or remove"), w)
      else if eqb (length participant_jids) 0
      then (err (invalid_request "at least one participant is required"), w)
      else let (changes, net) =
          W.update_group_participants group_jid action participant_jids w.net in
        (changes, record w { net = net })

  unfoldable pub leave_group : String → World B W D → Result (Unit {0}) × World B W D
  leave_group group_jid w =
      if is_blank group_jid
      then (err (invalid_request "group_jid is required"), w)
      else let (r, net) = W.leave_group group_jid w.net in (r, record w { net = net })
