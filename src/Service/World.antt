-- ===== src/Service/World.antt =====
-- internal/service/service.go: what the service holds and shares with its callers, and the steps
-- that several use cases have in common. The clock stands still within one call.
use whatsmeow_api.Prelude.{
  ℕ, String, false, Option, List, ltb, ◌||◌, ◌==◌, if◌then◌else◌, ℤ, pos, negsuc,
}
use whatsmeow_api.Time.{Time, zero_time}
use whatsmeow_api.Errors.{Result, ok, err, Error, invalid_request}
use whatsmeow_api.Store.{Chat}
use whatsmeow_api.Store.Bundle.{Bundle}
use whatsmeow_api.Broadcaster.{Broadcaster}
use whatsmeow_api.Waclient.{Downloader}
use whatsmeow_api.Waclient.Client.{WaClient}
use whatsmeow_api.Waclient.Jid.{chat_kind_from_jid}

-- `mediaStore.Write`: the SHA-256 in hex and the path, or an error.
pub record MediaDisk : Type 1 where
  pub Disk : Type 0
  pub write : List ℕ → String → Disk → Result (String × String) × Disk

-- `spawned` are the downloads that goroutines have still to make.
pub record World (B : Bundle) (W : WaClient) (D : MediaDisk) : Type 0 where
  pub store : B.State
  pub net : W.Net
  pub disk : D.Disk
  pub broadcaster : Option Broadcaster
  pub spawned : List (String × Downloader)
  pub clock : Time

abbrev pub max_text_len : ℕ
max_text_len = 4096

abbrev pub min_limit : ℕ
min_limit = 1

abbrev pub max_limit : ℕ
max_limit = 100

abbrev pub limit_error : Error
limit_error = invalid_request "limit must be in [1, 100]"

unfoldable pub validate_limit : ℤ → Result (Unit {0})
validate_limit (negsuc n) = err limit_error
validate_limit (pos n) = if ltb n min_limit || ltb max_limit n then err limit_error else ok tt

abbrev pub or_else {ℓ} : {A : Type ℓ} → A → Result A → A
or_else a (ok b) = b
or_else a (err _) = a

abbrev pub new_chat : String → String → Chat
new_chat jid kind = record {
  jid = jid;
  name = "";
  kind = kind;
  last_msg_at = zero_time;
  unread_count = 0;
  archived = false;
}

-- The chat row of `jid` after a message of the instant `at` was sent to it.
abbrev pub touched : String → Time → Result Chat → Chat
touched jid at found =
    let existing = or_else (new_chat jid (chat_kind_from_jid jid)) found in
    record existing {
      kind = if existing.kind == "" then chat_kind_from_jid jid else existing.kind;
      last_msg_at = at;
    }

module _ {B : Bundle} {W : WaClient} {D : MediaDisk} where
  -- A write whose error is logged and passed over.
  abbrev pub attempt : (B.State → Result B.State) → World B W D → World B W D
  attempt write w = record w { store = or_else w.store (write w.store) }

  -- The end of `SendText` and of `SendMedia`.
  unfoldable pub touch_chat : String → Time → World B W D → World B W D
  touch_chat jid at w = attempt (B.chats_put (touched jid at (B.chats_get jid w.store))) w
