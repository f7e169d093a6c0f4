-- ===== src/Service/React.antt =====
-- internal/service/service.go: `SendReaction`, `MarkMessageRead` and `SendTyping`.
pub mod Unread
use whatsmeow_api.Prelude.{◌-◌, String, not, ◌&&◌, Option, none, some, ltb, ◌==◌, if◌then◌else◌}
use whatsmeow_api.Text.{is_blank}
use whatsmeow_api.Errors.{Result, ok, err, invalid_request}
use whatsmeow_api.Store.{Message, Chat}
use whatsmeow_api.Store.Bundle.{Bundle}
use whatsmeow_api.Waclient.Client.{WaClient}
use whatsmeow_api.Service.World.{MediaDisk, World, attempt}

abbrev pub jid_or_empty : Option String → String
jid_or_empty none = ""
jid_or_empty (some jid) = jid

module _ {B : Bundle} {W : WaClient} {D : MediaDisk} where
  -- The JID is read after the reaction was sent.
  unfoldable pub persist_reaction :
      String → String → World B W D → Result (Unit {0}) → Result (Unit {0}) × World B W D
  persist_reaction message_id emoji w (err e) = (err e, w)
  persist_reaction message_id emoji w (ok _) =
      let our_jid = jid_or_empty (W.status w.net).jid in
      if emoji == "" then (ok tt, attempt (B.reactions_delete message_id our_jid) w) else (
        ok tt,
        attempt
            (B.reactions_put (record {
              message_id = message_id;
              sender_jid = our_jid;
              emoji = emoji;
              timestamp = w.clock;
            }))
            w,
      )

  unfoldable pub react_found :
      String → String → World B W D → Result Message → Result (Unit {0}) × World B W D
  unfolding persist_reaction
  react_found message_id emoji w (err e) = (err e, w)
  react_found message_id emoji w (ok existing) =
      let (sent, net) = W.send_reaction existing.chat_jid message_id emoji w.net in
      persist_reaction message_id emoji (record w { net = net }) sent

  unfoldable pub send_reaction : String → String → World B W D → Result (Unit {0}) × World B W D
  unfolding react_found
  send_reaction message_id emoji w =
      if is_blank message_id
      then (err (invalid_request "message_id is required"), w)
      else react_found message_id emoji w (B.messages_get message_id w.store)

  unfoldable pub count_down : Result Chat → World B W D → World B W D
  count_down (err e) w = w
  count_down (ok chat) w =
      if ltb 0 chat.unread_count
      then attempt (B.chats_put (record chat { unread_count = chat.unread_count - 1 })) w
      else w

  unfoldable pub read_marked :
      Message → World B W D → Result (Unit {0}) → Result (Unit {0}) × World B W D
  unfolding count_down
  read_marked existing w (err e) = (err e, w)
  read_marked existing w (ok _) = (ok tt, count_down (B.chats_get existing.chat_jid w.store) w)

  unfoldable pub mark_found :
      String → World B W D → Result Message → Result (Unit {0}) × World B W D
  unfolding read_marked
  mark_found message_id w (err e) = (err e, w)
  mark_found message_id w (ok existing) =
      let (sent, net) =
        W.mark_read existing.chat_jid existing.sender_jid message_id w.clock w.net in
      read_marked existing (record w { net = net }) sent

  unfoldable pub mark_message_read : String → World B W D → Result (Unit {0}) × World B W D
  unfolding mark_found
  mark_message_read message_id w =
      if is_blank message_id
      then (err (invalid_request "message_id is required"), w)
      else mark_found message_id w (B.messages_get message_id w.store)

  unfoldable pub send_typing : String → String → World B W D → Result (Unit {0}) × World B W D
  send_typing chat_jid state w =
      if is_blank chat_jid
      then (err (invalid_request "chat_jid is required"), w)
      else if not (state == "composing") && not (state == "paused")
      then (err (invalid_request "state must be composing or paused"), w)
      else let (sent, net) = W.send_chat_presence chat_jid state w.net in
        (sent, record w { net = net })
