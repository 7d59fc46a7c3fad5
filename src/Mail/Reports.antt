-- ===== src/Mail/Reports.antt =====
-- mail.go, `SendEmail`: what is sent on the channel, and when the process ends.
use proton_api_bridge.Common.{
  String, Option, none, some, List, [], ◌∷◌, ◌++◌, ◌≡◌, ◌⊎◌, inl, inr, refl, ap, ◌∙◌, append_assoc,
}
use proton_api_bridge.Action.{Act, Outcome, Error, ⊤, ok, err, fatal, >>=_step, >>=_stop, >>=_fatal}
use proton_api_bridge.Proton.{Bytes}
use proton_api_bridge.Api.{Api}
use proton_api_bridge.Drive.{Drive}
use proton_api_bridge.Mail.Defs.{
  MailSendingParameters, Message, Attachment, MailService, MailSt, create_draft, upload_each,
  upload_attachments, send_draft, settle, attempt, send_email,
}

-- A value or an error, as the outcome of a call that returns.
abbrev pub result_of : {A : Type 0} → A ⊎ Error → Outcome A
result_of (inl a) = ok a
result_of (inr e) = err e

module _ (api : Api) (drive : Drive api) (mail : MailService api) where
  attempt_ok :
      {A : Type 0} (step : Act api.World A) (s : MailSt api) {a : A} {w : api.World}
      → step s.world ≡ (ok a, w)
      → attempt api drive mail step s ≡ (ok (some a), record s { world = w })
  unfolding attempt
  attempt_ok step s ran = ap (settle api drive mail s.sent) ran

  attempt_err :
      {A : Type 0} (step : Act api.World A) (s : MailSt api) {e : Error} {w : api.World}
      → step s.world ≡ (err e, w)
      → attempt api drive mail step s
        ≡ (ok none, record { world = w; sent = s.sent ++ (some e ∷ []) })
  unfolding attempt
  attempt_err step s ran = ap (settle api drive mail s.sent) ran

  attempt_fatal :
      {A : Type 0} (step : Act api.World A) (s : MailSt api) {w : api.World}
      → step s.world ≡ (fatal, w)
      → attempt api drive mail step s ≡ (fatal, record s { world = w })
  unfolding attempt
  attempt_fatal step s ran = ap (settle api drive mail s.sent) ran

  -- What a step of the end sends: its error, and then nil.
  abbrev pub reports : Outcome ⊤ → List (Option Error)
  reports (err e) = some e ∷ none ∷ []
  reports _ = none ∷ []

  -- When the draft of an email is created and its attachments are uploaded, `SendEmail` sends
  -- nil at the end, also behind the error of the sending if that fails.
  pub send_email-reports :
      (config : MailSendingParameters) (s : MailSt api) (message : Message)
      (attachments : List Attachment) (w1 w2 w3 : api.World) (r : (⊤ ⊎ Error))
      → create_draft api drive mail config s.world ≡ (ok message, w1)
      → upload_attachments api drive mail (some message) config w1 ≡ (ok attachments, w2)
      → send_draft api drive mail message.id attachments config w2 ≡ (result_of r, w3)
      → send_email api drive mail config s
        ≡ (ok tt, record { world = w3; sent = s.sent ++ reports (result_of r) })
  unfolding send_email
  send_email-reports config s message attachments w1 w2 w3 (inl x) created uploaded sent =
      >>=_step (attempt api drive mail (create_draft api drive mail config)) _ s
        (attempt_ok (create_draft api drive mail config) s created)
      ∙ >>=_step (attempt api drive mail (upload_attachments api drive mail (some message) config))
          _ (record s { world = w1 })
          (attempt_ok (upload_attachments api drive mail (some message) config)
            (record s { world = w1 }) uploaded)
      ∙ >>=_step (attempt api drive mail (send_draft api drive mail message.id attachments config))
          _ (record s { world = w2 })
          (attempt_ok (send_draft api drive mail message.id attachments config)
            (record s { world = w2 }) sent)
  send_email-reports config s message attachments w1 w2 w3 (inr e) created uploaded sent =
      >>=_step (attempt api drive mail (create_draft api drive mail config)) _ s
        (attempt_ok (create_draft api drive mail config) s created)
      ∙ >>=_step (attempt api drive mail (upload_attachments api drive mail (some message) config))
          _ (record s { world = w1 })
          (attempt_ok (upload_attachments api drive mail (some message) config)
            (record s { world = w1 }) uploaded)
      ∙ >>=_step (attempt api drive mail (send_draft api drive mail message.id attachments config))
          _ (record s { world = w2 })
          (attempt_err (send_draft api drive mail message.id attachments config)
            (record s { world = w2 }) sent)
      ∙ ap (λ all. (ok tt, record { world = w3; sent = all }))
          (append_assoc s.sent (some e ∷ []) (none ∷ []))

  -- Without a draft, the attachments end in an error, end the process, or are none.
  abbrev Ends : Outcome (List Attachment) × api.World → Type 0
  Ends p =
      (w : api.World) × ((p ≡ (ok [], w)) ⊎ ((p ≡ (fatal, w)) ⊎ ((e : Error) × (p ≡ (err e, w)))))

  module _ (read : String → api.World → Bytes ⊎ Error)
      (reads : (file : String) (w : api.World)
        → (w' : api.World) × (mail.read_file file w ≡ (result_of (read file w), w'))) where
    read_next :
        (file : String) (more ids : List String) (w w' : api.World) (r : Bytes ⊎ Error)
        → mail.read_file file w ≡ (result_of r, w')
        → Ends (upload_each api drive mail none (file ∷ more) ids w)
    unfolding upload_each
    read_next file more ids w w' (inl bytes) ran =
        (w', inr (inl (>>=_step (mail.read_file file) _ w ran)))
    read_next file more ids w w' (inr e) ran =
        (w', inr (inr (e, >>=_stop (mail.read_file file) _ w ran)))

    upload_each-Ends :
        (files ids : List String) (w : api.World)
        → Ends (upload_each api drive mail none files ids w)
    unfolding upload_each
    upload_each-Ends [] ids w = (w, inl refl)
    upload_each-Ends (file ∷ more) ids w =
        let (w', ran) = reads file w in read_next file more ids w w' (read file w) ran

    -- When the draft of an email cannot be created, and the attachments can be read or fail with
    -- an error, `SendEmail` ends the process.
    pub send_email_no_draft :
        (config : MailSendingParameters) (s : MailSt api) (e : Error) (w1 : api.World)
        → create_draft api drive mail config s.world ≡ (err e, w1)
        → (s' : MailSt api) × (send_email api drive mail config s ≡ (fatal, s'))
    unfolding send_email upload_attachments
    send_email_no_draft config s e w1 failed_at =
        let s1 : MailSt api = record { world = w1; sent = s.sent ++ (some e ∷ []) } in
        let (w2, ends) = upload_each-Ends config.email_attachments config.email_content_ids w1 in
        let created =
          >>=_step (attempt api drive mail (create_draft api drive mail config)) _ s
            (attempt_err (create_draft api drive mail config) s failed_at) in
        let loop = upload_attachments api drive mail none config in
        elim ends [
          | inl ran ↦
              (_, created ∙ >>=_step (attempt api drive mail loop) _ s1 (attempt_ok loop s1 ran))
          | inr (inl ran) ↦ (
            _,
            created ∙ >>=_fatal (attempt api drive mail loop) _ s1 (attempt_fatal loop s1 ran),
          )
          | inr (inr (x, ran)) ↦
              (_, created ∙ >>=_step (attempt api drive mail loop) _ s1 (attempt_err loop s1 ran))
        ]
