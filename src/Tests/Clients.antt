-- ===== src/Tests/Clients.antt =====
-- A client whose methods are found by name, and an email.
use proton_api_bridge.Common.{
  ℕ, ◌+◌, String, Bool, true, false, none, some, List, [], ◌∷◌, ◌==◌, if◌then◌else◌, ◌≡◌, refl, inl,
  inr,
}
use proton_api_bridge.Action.{Outcome, ⊤, ok, err, fatal, eof, bind}
use proton_api_bridge.Proton.{MoveLinkReq}
use proton_api_bridge.Api.{Api}
use proton_api_bridge.Drive.{Drive}
use proton_api_bridge.Upload.{get_revision_verification_compat}
use proton_api_bridge.Folder.{move_link_compat}
use proton_api_bridge.Reflection.Values.{
  Kind, interface_kind, struct_kind, string_kind, GoType, Value, nil_value, struct, text, plain,
  Fields, no_field, field, field_by_name, hidden, pointer, Conversions, Method, Target,
}
use proton_api_bridge.Reflection.{
  string_value, verification_by_reflection, move_by_reflection, call_args, get_callable_value,
  is_nilable_kind,
}
use proton_api_bridge.Reflection.Settings.{set_string_field_if_present_lem}
use proton_api_bridge.Reflection.{has_text, set_string_field_if_present}
use proton_api_bridge.Reflection.Fits.{Verifies, by_struct, Moves, moved, Fits, missing, offers}
use proton_api_bridge.Reflection.Refines.{arguments, verification_refines, move_refines}
use proton_api_bridge.Mail.{
  MailSendingParameters, MailService, MailSt, send_email, create_draft, upload_attachments,
  upload_each, send_draft, get_attachment_session_key_map,
}
use proton_api_bridge.Mail.Reports.{send_email-reports, send_email_no_draft}
use proton_api_bridge.Tests.Server.{api, drive}

-- Every argument fits.
abbrev go : Conversions
go = record {
  assignable_to = λ t u. true;
  convertible_to = λ t u. true;
  convert = λ v t. some v;
  new_of = λ t. none;
}

abbrev type_named : String → Kind → Bool → GoType
type_named name kind is_error = record { name = name; kind = kind; implements_error = is_error }

abbrev error_type : GoType
error_type = type_named "error" interface_kind true

abbrev string_type : GoType
string_type = type_named "string" string_kind false

abbrev four_params : List GoType
four_params =
    type_named "Context" interface_kind false ∷ string_type ∷ string_type ∷ string_type ∷ []

abbrev result_fields : Fields
result_fields =
    field "VerificationCode" (text string_type "code")
      (field "ContentKeyPacket" (text string_type "packet") no_field)

-- A method that gives this result.
abbrev verifying : Method ℕ
verifying = record {
  params = four_params;
  call = λ args w. (
    some (struct (type_named "Result" struct_kind false) result_fields ∷ nil_value error_type ∷ []),
    w,
  );
}

abbrev client : Target ℕ
client = record {
  method_by_name =
      λ name. if name == "GetRevisionVerificationByVolume" then some verifying else none;
}

abbrev ctx : Value
ctx = plain (type_named "Context" interface_kind false) 0

verifying-Fits :
    Fits go Verifies verifying
      (arguments api go client ctx "volume" "link" (string_value "revision"))
      (λ w. (ok ("code", "packet"), w))
unfolding call_args get_callable_value bind field_by_name is_nilable_kind
verifying-Fits = record {
  counted = refl;
  taken = ctx ∷ string_value "volume" ∷ string_value "link" ∷ string_value "revision" ∷ [];
  takes = refl;
  gives = λ w. (_, refl, by_struct {tc = string_type} {tp = string_type} refl refl refl refl);
}

verification_refines_example :
    verification_by_reflection go (some client) ctx "share" "volume" "link" "revision" 100
    ≡ get_revision_verification_compat api "share" "volume" "link" "revision" 100
verification_refines_example =
    verification_refines api go client ctx "share" "volume" "link" "revision" 100
      (offers verifying-Fits) missing

-- The server with a move by share.
abbrev moving_api : Api
moving_api = record api { move_link = some (λ share_id link_id req w. (ok tt, w + 1)) }

abbrev moving_drive : Drive moving_api
moving_drive = record {
  main_share = drive.main_share;
  root_link = drive.root_link;
  main_share_kr = 10;
  default_addr_kr = some 5;
  replace_existing_draft = false;
  data_folder_name = "data";
  addr_krs = [];
  addr_data = [];
  signature_address = "me";
}

abbrev moving : Method ℕ
moving = record { params = four_params; call = λ args w. (some (nil_value error_type ∷ []), w + 1) }

abbrev moving_client : Target ℕ
moving_client = record { method_by_name = λ name. if name == "MoveLink" then some moving else none }

abbrev move_req : MoveLinkReq
move_req = record {
  parent_link_id = "docs";
  name = "name";
  hash = "hash";
  original_hash = "old";
  node_passphrase = "";
  name_signature_email = none;
}

abbrev req_value : MoveLinkReq → Value
req_value req =
    struct (type_named "MoveLinkReq" struct_kind false)
      (field "Name" (text string_type req.name) no_field)

moving-Fits :
    Fits go Moves moving
      (arguments moving_api go moving_client ctx "share" "link" (req_value move_req))
      (λ w. (ok tt, w + 1))
unfolding call_args get_callable_value bind is_nilable_kind
moving-Fits = record {
  counted = refl;
  taken = ctx ∷ string_value "share" ∷ string_value "link" ∷ req_value move_req ∷ [];
  takes = refl;
  gives = λ w. (_, refl, moved refl refl);
}

move_refines_example :
    move_by_reflection go (some moving_client) ctx "share" "volume" "link" (req_value move_req) 100
    ≡ move_link_compat moving_api moving_drive "share" "volume" "link" move_req 100
move_refines_example =
    move_refines moving_api go moving_client ctx moving_drive req_value "share" "volume" "link"
      move_req 100 missing (offers moving-Fits)

abbrev letter : MailSendingParameters
letter = record {
  template_file = "letter";
  email_subject = "subject";
  recipient_email_address = "you";
  email_attachments = "file" ∷ [];
  email_content_ids = "content" ∷ [];
}

-- A mail service, with what creating a draft and sending it end in.
abbrev mail_with : Outcome ⊤ → Outcome ⊤ → MailService api
mail_with created sent = record {
  PublicKeys = ⊤;
  Package = ⊤;
  read_file = λ name w. (ok (1 ∷ []), w);
  base = λ name. name;
  create_draft = λ kr req w. (bind created (λ x. ok (record { id = "draft" })), w);
  upload_attachment = λ kr req w. (ok (record { id = "attachment"; key_packets = "" }), w + 1);
  get_public_keys = λ address w. (ok (tt, true), w);
  public_key_ring = λ keys. ok 6;
  add_text_package = λ kr body recipient recipient_kr atts w. (ok tt, w);
  send_draft = λ message_id text_package w. (sent, w + 1);
}

abbrev mail_st : MailSt api
mail_st = record { world = 100; sent = [] }

letter_created :
    create_draft api drive (mail_with (ok tt) (err eof)) letter 100
    ≡ (ok (record { id = "draft" }), 100)
unfolding create_draft bind
letter_created = refl

letter_uploaded :
    upload_attachments api drive
      (mail_with (ok tt) (err eof))
      (some (record { id = "draft" }))
      letter
      100
    ≡ (ok (record { id = "attachment"; key_packets = "" } ∷ []), 101)
unfolding upload_attachments upload_each
letter_uploaded = refl

letter_sent :
    send_draft api drive
      (mail_with (ok tt) (err eof))
      "draft"
      (record { id = "attachment"; key_packets = "" } ∷ [])
      letter
      101
    ≡ (err eof, 102)
unfolding send_draft get_attachment_session_key_map
letter_sent = refl

send_email-reports_example :
    send_email api drive (mail_with (ok tt) (err eof)) letter mail_st
    ≡ (ok tt, record { world = 102; sent = some eof ∷ none ∷ [] })
send_email-reports_example =
    send_email-reports api drive (mail_with (ok tt) (err eof)) letter mail_st
      (record { id = "draft" }) (record { id = "attachment"; key_packets = "" } ∷ []) 100 101 102
      (inr eof) letter_created letter_uploaded letter_sent

letter_refused : create_draft api drive (mail_with (err eof) (ok tt)) letter 100 ≡ (err eof, 100)
unfolding create_draft bind
letter_refused = refl

send_email_no_draft_example :
    (s' : MailSt api) × (send_email api drive (mail_with (err eof) (ok tt)) letter mail_st
      ≡ (fatal, s'))
send_email_no_draft_example =
    send_email_no_draft api drive (mail_with (err eof) (ok tt)) (λ file w. inl (1 ∷ []))
      (λ file w. (w, refl)) letter mail_st eof 100 letter_refused

abbrev hidden_id : Fields
hidden_id = hidden "ID" (text string_type "id") (field "VolumeID" (text string_type "") no_field)

set_string_field_if_present_lem_example :
    (fs' : Fields) × (set_string_field_if_present
        (pointer error_type (struct error_type hidden_id))
        "VolumeID"
        "volume"
      ≡ pointer error_type (struct error_type fs'))
    × (field_by_name "VolumeID" fs' ≡ some (text string_type "volume"))
unfolding has_text field_by_name
set_string_field_if_present_lem_example =
    set_string_field_if_present_lem error_type error_type hidden_id "VolumeID" "volume" "VolumeID"
