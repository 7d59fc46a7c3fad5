-- ===== src/Mail/Defs.antt =====
-- mail.go
use proton_api_bridge.Common.{
  String, Bool, Option, none, some, List, [], ◌∷◌, ◌++◌, Map, insert, if◌then◌else◌,
}
use proton_api_bridge.Action.{
  Act, Outcome, Error, ⊤, ok, err, fatal, out_of_fuel, pure, lift, deref, modify, ◌>>=◌, ◌>>◌,
}
use proton_api_bridge.Proton.{Bytes}
use proton_api_bridge.Api.{Api}
use proton_api_bridge.Drive.{Drive}

-- `MailSendingParameters`
pub record MailSendingParameters : Type 0 where
  pub template_file : String
  pub email_subject : String
  pub recipient_email_address : String
  pub email_attachments : List String
  pub email_content_ids : List String

-- `proton.CreateDraftReq`, as far as it is set
pub record CreateDraftReq : Type 0 where
  pub subject : String
  pub sender : String
  pub to_list : List String
  pub body : Bytes

-- `proton.Message`
pub record Message : Type 0 where
  pub id : String

-- `proton.CreateAttachmentReq` and `proton.Attachment`
pub record CreateAttachmentReq : Type 0 where
  pub message_id : String
  pub filename : String
  pub content_id : String
  pub body : Bytes

pub record Attachment : Type 0 where
  pub id : String
  pub key_packets : String

-- The calls outside: the file system, the mail routes of the client, and the text package of a
-- request, which is encrypted for the recipient with these preferences.
pub record MailService (api : Api) : Type 1 where
  pub PublicKeys : Type 0
  pub Package : Type 0
  pub read_file : String → Act api.World Bytes
  pub base : String → String
  pub create_draft : Option api.KeyRing → CreateDraftReq → Act api.World Message
  pub upload_attachment : Option api.KeyRing → CreateAttachmentReq → Act api.World Attachment
  pub get_public_keys : String → Act api.World (PublicKeys × Bool)
  pub public_key_ring : PublicKeys → Outcome api.KeyRing
  pub add_text_package :
      Option api.KeyRing → Bytes → String → api.KeyRing → Map api.SessionKey → Act api.World Package
  pub send_draft : String → Package → Act api.World ⊤

-- The world, and what was sent on the channel of errors; a nil error is the missing one.
pub record MailSt (api : Api) : Type 0 where
  pub world : api.World
  pub sent : List (Option Error)

module _ (api : Api) (drive : Drive api) (mail : MailService api) where
  -- `getHTMLBody`
  abbrev pub get_html_body : MailSendingParameters → Act api.World Bytes
  get_html_body config = mail.read_file config.template_file

  -- `createDraft`
  unfoldable pub create_draft : MailSendingParameters → Act api.World Message
  create_draft config = do
    html_template ← get_html_body config
    mail.create_draft drive.default_addr_kr (record {
      subject = config.email_subject;
      sender = drive.signature_address;
      to_list = config.recipient_email_address ∷ [];
      body = html_template;
    })

  -- `getAttachmentSessionKeyMap`, from the map of the attachments before
  unfoldable pub get_attachment_session_key_map :
      List Attachment → Map api.SessionKey → Act api.World (Map api.SessionKey)
  get_attachment_session_key_map [] keys = pure keys
  get_attachment_session_key_map (attachment ∷ more) keys = do
    key_packet ← lift (api.base64_decode attachment.key_packets)
    addr_kr ← deref drive.default_addr_kr
    key ← lift (api.decrypt_session_key addr_kr key_packet)
    get_attachment_session_key_map more (insert attachment.id key keys)

  -- The loop of `uploadAttachments`: a missing draft ends the process, and so does a file without
  -- a content id.
  unfoldable pub upload_each :
      Option Message → List String → List String → Act api.World (List Attachment)
  upload_each draft [] content_ids = pure []
  upload_each draft (file ∷ more) content_ids = do
    bytes ← mail.read_file file
    message ← deref draft
    (content_id, others) ← lift (elim content_ids [ [] ↦ fatal | i ∷ is ↦ ok (i, is) ])
    attachment ← mail.upload_attachment drive.default_addr_kr (record {
      message_id = message.id;
      filename = mail.base file;
      content_id = content_id;
      body = bytes;
    })
    attachments ← upload_each draft more others
    pure (attachment ∷ attachments)

  -- `uploadAttachments`
  unfoldable pub upload_attachments :
      Option Message → MailSendingParameters → Act api.World (List Attachment)
  unfolding upload_each
  upload_attachments draft config =
      upload_each draft config.email_attachments config.email_content_ids

  -- `sendDraft`; a recipient who is not internal ends the process.
  unfoldable pub send_draft : String → List Attachment → MailSendingParameters → Act api.World ⊤
  unfolding get_attachment_session_key_map
  send_draft message_id attachments config = do
    (public_keys, is_internal) ← mail.get_public_keys config.recipient_email_address
    lift (if is_internal then ok tt else fatal)
    recipient_kr ← lift (mail.public_key_ring public_keys)
    html_template ← get_html_body config
    atts ← get_attachment_session_key_map attachments []
    text_package ←
        mail.add_text_package drive.default_addr_kr html_template config.recipient_email_address
          recipient_kr atts
    mail.send_draft message_id text_package

  -- A step of `SendEmail`: its error goes to the channel, and its result is nil then.
  abbrev pub settle :
      {A : Type 0} → List (Option Error) → Outcome A × api.World → Outcome (Option A) × MailSt api
  settle sent (ok a, w) = (ok (some a), record { world = w; sent = sent })
  settle sent (err e, w) = (ok none, record { world = w; sent = sent ++ (some e ∷ []) })
  settle sent (fatal, w) = (fatal, record { world = w; sent = sent })
  settle sent (out_of_fuel, w) = (out_of_fuel, record { world = w; sent = sent })

  unfoldable pub attempt : {A : Type 0} → Act api.World A → Act (MailSt api) (Option A)
  attempt step s = settle s.sent (step s.world)

  -- A nil slice of attachments has none.
  abbrev pub attachments_of : Option (List Attachment) → List Attachment
  attachments_of none = []
  attachments_of (some attachments) = attachments

  -- `SendEmail`
  unfoldable pub send_email : MailSendingParameters → Act (MailSt api) ⊤
  unfolding create_draft upload_attachments send_draft attempt
  send_email config = do
    draft ← attempt (create_draft config)
    attachments ← attempt (upload_attachments draft config)
    message ← deref draft
    attempt (send_draft message.id (attachments_of attachments) config)
    modify (λ s. record s { sent = s.sent ++ (none ∷ []) })
