-- ===== src/Waclient/Adapter/Implements/Offline.antt =====
-- internal/waclient/whatsmeow_adapter.go under internal/service/service.go and internal/transport/http:
-- a request to send while WhatsApp is not connected.
use whatsmeow_api.Prelude.{◌≡◌, refl, ap, ◌∙◌, String, false, some}
use whatsmeow_api.Json.{time}
use whatsmeow_api.Errors.{err, not_connected}
use whatsmeow_api.Store.Bundle.{Bundle}
use whatsmeow_api.Service.World.{MediaDisk, World}
use whatsmeow_api.Service.Send.{
  SendMediaRequest, send_text, send_media, persist_text, persist_media,
}
use whatsmeow_api.Service.Send.Guards.{
  IsSendable, IsSendableMedia, send_text_sendable, media_problem_iff,
}
use whatsmeow_api.Waclient.Adapter.{Whatsmeow, Adapter, is_ready, guarded}
use whatsmeow_api.Waclient.Adapter.Calls.{adapter_send_text, adapter_send_media, to_chat}
use whatsmeow_api.Waclient.Adapter.Implements.{adapter_client}
use whatsmeow_api.Http.Response.{problem, json, send_problem}
use whatsmeow_api.Http.Writes.Refusals.{send_text_handler-passed}
use whatsmeow_api.Http.Writes.{SendTextRequest, sent_json, respond, send_text_handler}

module _ {B : Bundle} {M : Whatsmeow} (ending : Adapter M → String) {D : MediaDisk}
    (w : World B (adapter_client M ending) D) where
  send_text-offline :
      (chat_jid text reply_to : String)
      → is_ready w.net ≡ false
      → IsSendable chat_jid text
      → send_text chat_jid text reply_to w ≡ (err not_connected, w)
  unfolding adapter_send_text to_chat guarded persist_text
  send_text-offline chat_jid text reply_to offline fine =
      send_text_sendable w chat_jid text reply_to fine ∙ rw offline refl

  media-offline :
      (req : SendMediaRequest)
      → is_ready w.net ≡ false
      → IsSendableMedia req
      → send_media req w ≡ (err not_connected, w)
  unfolding adapter_send_media to_chat guarded send_media persist_media
  media-offline req offline fine = rw ((media_problem_iff req).1 fine, offline) refl

  -- While the adapter has no client that is connected and logged in, a request over HTTP to send a
  -- text that the API admits is answered with status 409 and code wa.not_connected, a media message
  -- that the service admits is refused with `ErrNotConnected`, and both leave the store, the disk
  -- and WhatsApp as they were.
  pub send-offline :
      (req : SendTextRequest) (media : SendMediaRequest)
      → is_ready w.net ≡ false
      → IsSendable req.chat_jid req.text
      → IsSendableMedia media
      → (send_text_handler (some req) w
          ≡ (problem 409 "wa.not_connected" "waclient: not connected", w))
        × (send_media media w ≡ (err not_connected, w))
  unfolding send_text_handler send_problem
  send-offline req media offline fine media_fine =
      let unsent = send_text-offline req.chat_jid req.text req.reply_to offline fine in
      (
        send_text_handler-passed w req fine
            ∙ ap (respond (λ m. json 201 (sent_json m (time m.timestamp))) send_problem) unsent,
        media-offline media offline media_fine,
      )
